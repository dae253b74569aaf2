-- ===== src/PhoneTree/Book/Edit.antt =====
-- `phone_book_edit_last_name`: the contact moves to the place of its new last name.
use eltex_education.Common.{
  ℕ, suc, ◌^◌, ◌<◌, ap, subst, inl, inr, Option, none, some, List, [], ◌∷◌, ◌++◌, arith, All-append,
  All-append_left, All-append_right, Option-cases, length, length-append,
}
use eltex_education.Common.Memory.{Pointer}
use eltex_education.Common.CString.{CString}
use eltex_education.PhoneTree.Contact.{Contact, name_size, copy_string}
use eltex_education.PhoneTree.Tree.{Tree, extract_node, find_by_id}
use eltex_education.PhoneTree.Tree.View.{in_order, IsAvl}
use eltex_education.PhoneTree.Tree.Add.{IsSorted, Before, in_order-add, add-IsAvl}
use eltex_education.PhoneTree.Tree.Extract.{extract_node-Removed, extract_node-IsAvl}
use eltex_education.PhoneTree.Tree.Take.{Removed}
use eltex_education.PhoneTree.Book.{edit_last_name, reinsert}

IsSorted-without : (p q : List Contact) (d : Contact) → IsSorted (p ++ (d ∷ q)) → IsSorted (p ++ q)
IsSorted-without [] q d (a, s) = s
IsSorted-without (x ∷ p) q d (a, s) = (
  All-append (Before x) p q (All-append_left (Before x) p (d ∷ q) a)
      (All-append_right (Before x) p (d ∷ q) a).1,
  IsSorted-without p q d s,
)

-- Sorted, balanced, and small enough for the stored heights.
pub record IsTree (t : Tree) : Type 0 where
  pub sorted : IsSorted (in_order t)
  pub avl : IsAvl t
  pub small : suc (length (in_order t)) < 2 ^ 127

taken-IsTree :
    (id : ℕ) (t t' : Tree) (o : Option Contact)
    → IsTree t
    → IsAvl t'
    → Removed id (in_order t) (in_order t') o
    → IsTree t'
taken-IsTree id t t' none v a (e, n) = record {
  sorted = rw e v.sorted;
  avl = a;
  small = rw e v.small;
}
taken-IsTree id t t' (some d) v a (p, q, e, f, g) =
    let s = subst IsSorted e v.sorted in
    record {
      sorted = rw f (IsSorted-without p q d s);
      avl = a;
      small =
          rw f (omega (arith, v.small, ap length e, length-append p (d ∷ q), length-append p q));
    }

-- `phone_book_extract_node` keeps the tree sorted and balanced.
pub extract_node-IsTree : (t : Tree) (id : ℕ) → IsTree t → IsTree (extract_node t id).0
extract_node-IsTree t id v =
    taken-IsTree id t (extract_node t id).0 (extract_node t id).1 v
      (extract_node-IsAvl t id v.avl v.small).0 (extract_node-Removed t id)

reinsert-IsAvl :
    (t : Tree) (o : Option Contact) (text : CString)
    → IsTree t
    → IsSorted (in_order (reinsert (t, o) text).1) × IsAvl (reinsert (t, o) text).1
reinsert-IsAvl t none text v = (v.sorted, v.avl)
reinsert-IsAvl t (some c) text v =
    let new : Contact = record c { last_name = text } in
    ((in_order-add t new v.sorted).1, (add-IsAvl t new v.avl v.small).0)

-- In a tree that is sorted and balanced, with right heights and less than 2 ^ 127 - 1 contacts,
-- `phone_book_edit_last_name` keeps it sorted and balanced, whether it succeeds or refuses.
pub edit_last_name-IsSorted :
    (t : Tree) (id : ℕ) (text : Pointer CString)
    → IsTree t
    → IsSorted (in_order (edit_last_name t id text).1) × IsAvl (edit_last_name t id text).1
unfolding edit_last_name
edit_last_name-IsSorted t id text v = elim (Option-cases (copy_string name_size text)) [
  | inl e ↦ rw e (v.sorted, v.avl)
  | inr (s, e) ↦ elim (Option-cases (find_by_id t id)) [
    | inl n ↦ rw (e, n) (v.sorted, v.avl)
    | inr (c, n) ↦
        rw (e, n)
          (reinsert-IsAvl (extract_node t id).0 (extract_node t id).1 s
            (extract_node-IsTree t id v))
  ]
]
