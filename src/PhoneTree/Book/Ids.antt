-- ===== src/PhoneTree/Book/Ids.antt =====
-- Ids: those in the book are distinct, were issued, and are not free to be issued again.
use native.Mathlib.Decide.{ℕ_discrete}
use eltex_education.Common.{
  ℕ, ◌≡◌, refl, ◌∙◌, sym, subst, ◌≢◌, ◌⊎◌, inl, inr, Bool, true, false, Option, none, some, ◌∷◌,
  ◌++◌, arith, ◌==◌, All, All-map, All-both, Option-cases,
}
use eltex_education.Common.Memory.{Pointer}
use eltex_education.Common.CString.{CString}
use eltex_education.PhoneTree.Contact.{Contact, node_create}
use eltex_education.PhoneTree.Tree.{add, extract_node, find_by_id}
use eltex_education.PhoneTree.Tree.View.{in_order}
use eltex_education.PhoneTree.Tree.Extract.{add-Removed, extract_node-Removed}
use eltex_education.PhoneTree.Tree.Take.{Removed}
use eltex_education.PhoneTree.Tree.Search.{find_by_id-extract}
use eltex_education.PhoneTree.Book.{
  add_new, remove_known, remove_found, IdManager, Book, release_id, create_and_add, remove,
}
use eltex_education.PhoneTree.Book.Fresh.{
  DistinctIds, Issued, Absent, IsValid, All-without, All-with, DistinctIds-without,
  DistinctIds-with, IsFresh, take_id-Taken,
}

add-IsValid :
    (b : Book) (c : Contact) (id : ℕ) (m : IdManager)
    → IsValid b
    → IsFresh (in_order b.head) b.ids.next_id id m
    → IsValid (record { head = add b.head (record c { id = id }); ids = m })
add-IsValid b c id m v f =
    let new : Contact = record c { id = id } in
    let (p, q, e, g, h) = add-Removed b.head new in
    let absent = subst (λ xs. Absent xs id) g f.absent in
    let issued =
      All-map (λ d. Issued b.ids.next_id d.id) (λ d. Issued m.next_id d.id) (in_order b.head)
        (λ d k. f.grows d.id k) v.issued in
    record {
      distinct = rw e (DistinctIds-with p q new (subst DistinctIds g v.distinct) absent);
      issued = rw e (
          All-with (λ d. Issued m.next_id d.id) p q new f.issued
            (subst (All (λ d. Issued m.next_id d.id)) g issued));
      free_distinct = f.free_distinct;
      free_issued = f.free_issued;
      apart =
          All-map (λ x. (x ≢ id) × Absent (in_order b.head) x) (Absent (in_order (add b.head new)))
            m.free_ids
            (λ x k. rw e (
              All-with (λ d. d.id ≢ x) p q new (λ z. k.0 (sym z))
                (subst (λ xs. Absent xs x) g k.1)))
            (All-both (λ x. x ≢ id) (Absent (in_order b.head)) m.free_ids f.taken f.apart);
      in_range = f.in_range;
    }

add_new-IsValid : (b : Book) (c : Contact) → IsValid b → IsValid (add_new b (some c)).1
add_new-IsValid b c v =
    elim (take_id-Taken (in_order b.head) b.ids.next_id b.ids.free_ids v.issued v.free_distinct
      v.free_issued v.apart v.in_range) [
        | inl e ↦ rw e v
        | inr (id, m, e, f) ↦ rw e (add-IsValid b c id m v f)
      ]

add_new-IsValid_any : (b : Book) (o : Option Contact) → IsValid b → IsValid (add_new b o).1
add_new-IsValid_any b none v = v
add_new-IsValid_any b (some c) v = add_new-IsValid b c v

ne_test : (a : ℕ) → a ≢ 0 → (a == 0) ≡ false
ne_test a h = ground arith

remove_one-IsValid :
    (b : Book) (id : ℕ) (c : Contact)
    → IsValid b
    → find_by_id b.head id ≡ some c
    → IsValid (record {
      head = (extract_node b.head id).0;
      ids = record { next_id = b.ids.next_id; free_ids = id ∷ b.ids.free_ids };
    })
remove_one-IsValid b id c v e =
    let (p, q, x, y, z) =
      subst (Removed id (in_order b.head) (in_order (extract_node b.head id).0))
        (find_by_id-extract b.head id ∙ e) (extract_node-Removed b.head id) in
    let (d, a) = DistinctIds-without p q c (subst DistinctIds x v.distinct) in
    let fresh = subst (Absent (p ++ q)) z a in
    let (i, is) =
      All-without (λ d. Issued b.ids.next_id d.id) p q c
        (subst (All (λ d. Issued b.ids.next_id d.id)) x v.issued) in
    record {
      distinct = rw y d;
      issued = rw y is;
      free_distinct = (
        All-map (Absent (in_order b.head)) (λ f. f ≢ id) b.ids.free_ids
            (λ f k h.
              (All-without (λ d. d.id ≢ f) p q c (subst (λ xs. Absent xs f) x k)).0 (z ∙ sym h))
            v.apart,
        v.free_distinct,
      );
      free_issued = (subst (Issued b.ids.next_id) z i, v.free_issued);
      apart = (
        rw y fresh,
        All-map (Absent (in_order b.head)) (Absent (in_order (extract_node b.head id).0))
            b.ids.free_ids
            (λ f k. rw y (All-without (λ d. d.id ≢ f) p q c (subst (λ xs. Absent xs f) x k)).1)
            v.apart,
      );
      in_range = v.in_range;
    }

release-ok :
    (m : IdManager) (id : ℕ)
    → id ≢ 0
    → release_id true m id ≡ (true, record { next_id = m.next_id; free_ids = id ∷ m.free_ids })
unfolding release_id
release-ok m id h = ground arith

release-fail : (m : IdManager) (id : ℕ) → id ≢ 0 → release_id false m id ≡ (false, m)
unfolding release_id
release-fail m id h = ground arith

released-IsValid :
    (alloc : Bool) (b : Book) (id : ℕ) (c : Contact)
    → IsValid b
    → id ≢ 0
    → find_by_id b.head id ≡ some c
    → IsValid (remove_found (release_id alloc b.ids id) b id).1
released-IsValid true b id c v ne e = rw (release-ok b.ids id ne) (remove_one-IsValid b id c v e)
released-IsValid false b id c v ne e = rw (release-fail b.ids id ne) v

remove_known-IsValid :
    (alloc : Bool) (b : Book) (id : ℕ)
    → IsValid b
    → id ≢ 0
    → IsValid (remove_known alloc b id (find_by_id b.head id)).1
remove_known-IsValid alloc b id v ne = elim (Option-cases (find_by_id b.head id)) [
  | inl e ↦ rw e v
  | inr (c, e) ↦ rw e (released-IsValid alloc b id c v ne e)
]

-- `phone_book_remove` keeps the ids of the contacts distinct and issued, the free ids distinct,
-- issued and apart from those of the contacts, and the next id below 2 ^ 32, whether or not it
-- finds the contact and there is memory.
pub remove-IsValid : (alloc : Bool) (b : Book) (id : ℕ) → IsValid b → IsValid (remove alloc b id).1
unfolding remove
remove-IsValid alloc b id v = elim (ℕ_discrete id 0) [
  | yes z ↦ rw z v
  | no ne ↦ rw (ne_test id ne) (remove_known-IsValid alloc b id v ne)
]

-- `phone_book_node_create_and_add` keeps the ids of the contacts distinct and issued, the free ids
-- distinct, issued and apart from those of the contacts, and the next id below 2 ^ 32, whether or
-- not the contact can be built and an id is left.
pub create_and_add-IsValid :
    (alloc : Bool) (name last_name patronymic phone home workplace job : Pointer CString) (b : Book)
    → IsValid b
    → IsValid (create_and_add alloc name last_name patronymic phone home workplace job b).1
unfolding create_and_add
create_and_add-IsValid alloc name last patronymic phone home workplace job b v =
    add_new-IsValid_any b (node_create alloc 0 name last patronymic phone home workplace job) v

-- In a book with valid ids, with memory for the free id, `phone_book_remove` of an id that is not
-- 0 either succeeds, takes out the contact that `phone_book_find_by_id` finds and leaves none with
-- the id, or fails, changes nothing, and no contact has the id.
pub remove-takes :
    (b : Book) (id : ℕ)
    → IsValid b
    → id ≢ 0
    → let (ok, b') = remove true b id in
      ((ok ≡ true)
        × (d : Contact) × (find_by_id b.head id ≡ some d)
        × Removed id (in_order b.head) (in_order b'.head) (some d)
        × Absent (in_order b'.head) id)
      ⊎ ((ok ≡ false) × (b' ≡ b) × Absent (in_order b.head) id)
unfolding remove
remove-takes b id v ne =
    let out = extract_node-Removed b.head id in
    let taken = Removed id (in_order b.head) (in_order (extract_node b.head id).0) in
    rw (ne_test id ne) (elim (Option-cases (find_by_id b.head id)) [
      | inl e ↦
          let out' = subst taken (find_by_id-extract b.head id ∙ e) out in
          rw e (inr (refl, refl, out'.1))
      | inr (c, e) ↦
          let (p, q, x, y, z) = subst taken (find_by_id-extract b.head id ∙ e) out in
          let (d, a) = DistinctIds-without p q c (subst DistinctIds x v.distinct) in
          rw (e, release-ok b.ids id ne)
            (inl (refl, c, refl, (p, q, x, y, z), rw y (subst (Absent (p ++ q)) z a)))
    ])
