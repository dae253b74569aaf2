-- ===== src/Tests/Phone.antt =====
-- The phone book: three contacts, an id taken back, and a change of last name.
use eltex_education.Common.{
  ℕ, ◌+◌, ◌≤◌, ◌≡◌, ◌≢◌, ◌⊎◌, refl, Bool, true, false, none, some, [], ◌∷◌, arith,
}
use eltex_education.Common.Memory.{Pointer}
use eltex_education.Common.CString.{CString, strcmp}
use eltex_education.PhoneTree.Contact.{
  Contact, copy_string, edit_phone_of, edit_email_of, edit_social_link_of,
}
use eltex_education.PhoneTree.Tree.{
  Tree, leaf, node, height, add, find_by_id, extract_node, find, equals_ℤ, is_negative, is_positive,
}
use eltex_education.PhoneTree.Tree.View.{in_order, IsAvl}
use eltex_education.PhoneTree.Tree.Add.{IsSorted, insert, in_order-add, add-IsAvl}
use eltex_education.PhoneTree.Tree.Extract.{extract_node-Removed, extract_node-IsAvl}
use eltex_education.PhoneTree.Tree.Take.{Removed}
use eltex_education.PhoneTree.Tree.Search.{keep, wanted, find-keep}
use eltex_education.PhoneTree.Book.{
  Book, create_and_add, remove, edit_last_name, edit_at, edit_phone, edit_email, edit_social_link,
}
use eltex_education.PhoneTree.Book.Ids.{create_and_add-IsValid, remove-IsValid, remove-takes}
use eltex_education.PhoneTree.Book.Fresh.{IsValid, Absent}
use eltex_education.PhoneTree.Book.Edit.{IsTree, edit_last_name-IsSorted}

abbrev pub person : ℕ → CString → Contact
person id last = record {
  id = id;
  name = 65 ∷ [];
  last_name = last;
  patronymic = [];
  home_address = [];
  workplace = [];
  job_title = [];
  phone_numbers = [];
  emails = [];
  social_links = [];
}

abbrev pub ann : Contact
ann = person 1 (66 ∷ [])

abbrev pub bob : Contact
bob = person 2 (67 ∷ [])

abbrev pub eve : Contact
eve = person 3 (68 ∷ [])

-- Right-leaning: one more contact on the right makes `balance` rotate.
abbrev pub two : Tree
two = node ann leaf (node bob leaf leaf 1) 2

pub two-IsSorted : IsSorted (in_order two)
unfolding strcmp
two-IsSorted = ((refl, tt), (tt, tt))

two-IsAvl : IsAvl two
two-IsAvl = (refl, omega arith, omega arith, tt, (refl, omega arith, omega arith, tt, tt))

rotated : add two eve ≡ node bob (node ann leaf leaf 1) (node eve leaf leaf 1) 2
unfolding add strcmp equals_ℤ is_negative is_positive
rotated = refl

in_order-add_example :
    (in_order (add two eve) ≡ insert eve (ann ∷ bob ∷ [])) × IsSorted (in_order (add two eve))
in_order-add_example = in_order-add two eve two-IsSorted

add-IsAvl_example : IsAvl (add two eve) × (2 ≤ height (add two eve)) × (height (add two eve) ≤ 3)
add-IsAvl_example = add-IsAvl two eve two-IsAvl (omega arith)

extract_node-Removed_example :
    let (t', o) = extract_node two 1 in Removed 1 (ann ∷ bob ∷ []) (in_order t') o
extract_node-Removed_example = extract_node-Removed two 1

extract_node-IsAvl_example :
    let t' = (extract_node two 1).0 in IsAvl t' × (2 ≤ height t' + 1) × (height t' ≤ 2)
extract_node-IsAvl_example = extract_node-IsAvl two 1 two-IsAvl (omega arith)

abbrev pub plenty : ℕ → Bool
plenty n = true

find-keep_example :
    ((◌≡◌ {A = Pointer CString} none none)
      × (◌≡◌ {A = Pointer CString} (some (67 ∷ [])) none)
      × (find plenty two none (some (67 ∷ [])) ≡ []))
    ⊎ (((◌≢◌ {A = Pointer CString} none none) ⊎ (◌≢◌ {A = Pointer CString} (some (67 ∷ [])) none))
        × (find plenty two none (some (67 ∷ []))
            ≡ keep (wanted none (some (67 ∷ []))) (ann ∷ bob ∷ [])))
find-keep_example = find-keep plenty two none (some (67 ∷ [])) (λ n. refl)

-- Ids 1 and 2 are in use, 3 was given back, and 4 comes next.
abbrev pub book : Book
book = record { head = two; ids = record { next_id = 4; free_ids = 3 ∷ [] } }

pub book-IsValid : IsValid book
book-IsValid = omega arith

abbrev pub text : Pointer CString
text = some (69 ∷ [])

create_and_add-IsValid_example :
    IsValid (create_and_add true text text none none none none none book).1
create_and_add-IsValid_example =
    create_and_add-IsValid true text text none none none none none book book-IsValid

remove-IsValid_example : IsValid (remove true book 2).1
remove-IsValid_example = remove-IsValid true book 2 book-IsValid

remove-takes_example :
    let (ok, b') = remove true book 2 in
    ((ok ≡ true)
      × (d : Contact) × (find_by_id two 2 ≡ some d)
      × Removed 2 (ann ∷ bob ∷ []) (in_order b'.head) (some d)
      × Absent (in_order b'.head) 2)
    ⊎ ((ok ≡ false) × (b' ≡ book) × Absent (ann ∷ bob ∷ []) 2)
remove-takes_example = remove-takes book 2 book-IsValid (omega arith)

two-IsTree : IsTree two
two-IsTree = record { sorted = two-IsSorted; avl = two-IsAvl; small = omega arith }

edit_last_name-IsSorted_example :
    IsSorted (in_order (edit_last_name two 1 text).1) × IsAvl (edit_last_name two 1 text).1
edit_last_name-IsSorted_example = edit_last_name-IsSorted two 1 text two-IsTree

-- Bob with one phone number, behind Ann.
abbrev reachable : ℕ → Tree
reachable digit =
    node ann leaf (node (record bob { phone_numbers = (digit ∷ []) ∷ [] }) leaf leaf 1) 2

phone_edited : edit_phone (reachable 49) 2 0 (some (50 ∷ [])) ≡ (true, reachable 50)
unfolding edit_phone edit_phone_of edit_at find_by_id copy_string
phone_edited = refl

no_second_phone : edit_phone (reachable 49) 2 1 (some (50 ∷ [])) ≡ (false, reachable 49)
unfolding edit_phone edit_phone_of edit_at find_by_id copy_string
no_second_phone = refl

no_email : edit_email (reachable 49) 2 0 (some (50 ∷ [])) ≡ (false, reachable 49)
unfolding edit_email edit_email_of edit_at find_by_id copy_string
no_email = refl

nobody : edit_social_link (reachable 49) 3 0 (some (50 ∷ [])) ≡ (false, reachable 49)
unfolding edit_social_link edit_social_link_of edit_at find_by_id copy_string
nobody = refl
