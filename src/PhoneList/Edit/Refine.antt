-- ===== src/PhoneList/Edit/Refine.antt =====
-- `phone_book_remove` of the doubly linked phone book and of the one on an AVL tree agree.
use eltex_education.Common.{
  ℕ, ◌<◌, ◌≡◌, ◌≢◌, ◌⊎◌, inl, inr, ◌∙◌, refl, sym, ap, subst, Bool, true, false, Option, some, List,
  [], ◌∷◌, ◌++◌, arith, ◌==◌, if◌then◌else◌, length, All-append_right, Option-cases,
}
use eltex_education.PhoneTree.Contact.{Contact}
use eltex_education.PhoneTree.Tree.{find_by_id}
use eltex_education.PhoneTree.Tree.View.{in_order}
use eltex_education.PhoneTree.Tree.Take.{Removed}
use eltex_education.PhoneTree.Book.{Book, IdManager, remove as tree_remove, release_id}
use eltex_education.PhoneTree.Book.Ids.{remove-takes}
use eltex_education.PhoneTree.Book.Fresh.{DistinctIds, IsValid, Absent}
use eltex_education.PhoneList.Heap.{Ptr, Heap}
use eltex_education.PhoneList.Heap.Chain.{Cells, contacts}
use eltex_education.PhoneList.Insert.{IsList}
use eltex_education.PhoneList.Remove.{Unlike, remove-Taken}
use eltex_education.PhoneList.Operations.{remove}

-- A step of the list book that ends in this state agrees with a tree book's step.
pub record Agrees (ok : Bool) (b : Book) (r : Option ((Bool × Ptr × IdManager) × Heap))
    : Type 0 where
  pub heap : Heap
  pub head : Ptr
  pub cells : Cells
  pub result : r ≡ some ((ok, head, b.ids), heap)
  pub list : IsList heap head cells
  pub contents : contacts cells ≡ in_order b.head

-- The contacts whose id is another.
abbrev without : ℕ → List Contact → List Contact
without id [] = []
without id (c ∷ cs) = if c.id == id then without id cs else c ∷ without id cs

without-Absent : (id : ℕ) (cs : List Contact) → Absent cs id → without id cs ≡ cs
without-Absent id [] a = refl
without-Absent id (c ∷ cs) (n, a) = ground (arith, without-Absent id cs a)

without-middle :
    (id : ℕ) (before : List Contact) (c : Contact) (behind : List Contact)
    → c.id ≡ id
    → DistinctIds (before ++ (c ∷ behind))
    → without id (before ++ (c ∷ behind)) ≡ before ++ behind
without-middle id [] c behind e (a, d) =
    ground (arith, without-Absent id behind (subst (Absent behind) e a))
without-middle id (x ∷ before) c behind e (a, d) =
    let other = (All-append_right (λ y. y.id ≢ x.id) before (c ∷ behind) a).0 in
    ground (arith, without-middle id before c behind e d)

Removed-without :
    (id : ℕ) (xs xs' : List Contact) (c : Contact)
    → DistinctIds xs
    → Removed id xs xs' (some c)
    → xs' ≡ without id xs
Removed-without id xs xs' c d (before, behind, e, f, g) =
    f ∙ sym (without-middle id before c behind g (subst DistinctIds e d)) ∙ ap (without id) (sym e)

not-Absent :
    (id : ℕ) (xs xs' : List Contact) (c : Contact) → Removed id xs xs' (some c) → ¬ Absent xs id
not-Absent id xs xs' c (before, behind, e, f, g) a =
    (All-append_right (λ x. x.id ≢ id) before (c ∷ behind) (subst (λ t. Absent t id) e a)).0 g

Unlike-contacts : (id : ℕ) (cells : Cells) → Unlike id cells → Absent (contacts cells) id
Unlike-contacts id [] u = tt
Unlike-contacts id ((q, c) ∷ cells) (n, u) = (n, Unlike-contacts id cells u)

remove_ids :
    (b : Book) (id : ℕ)
    → id ≢ 0
    → (tree_remove true b id).0 ≡ true
    → (tree_remove true b id).1.ids ≡ record b.ids { free_ids = id ∷ b.ids.free_ids }
unfolding tree_remove release_id
remove_ids b id ne e = elim (Option-cases (find_by_id b.head id)) [
  | inl f ↦ ground arith
  | inr (c, f) ↦ ground arith
]

-- When a heap holds a doubly linked list of the contacts of a tree book with valid ids, in order,
-- and there is memory for the free id, `phone_book_remove` of the list book of an id that is not
-- 0, with fuel for its loop, reads no invalid pointer and gives the status and the ids of the tree
-- book, and the heap again holds a list of its contacts, linked both ways.
pub remove-Agrees :
    (fuel : ℕ) (h : Heap) (head : Ptr) (cells : Cells) (b : Book) (id : ℕ)
    → IsList h head cells
    → length cells < fuel
    → contacts cells ≡ in_order b.head
    → IsValid b
    → id ≢ 0
    → let (ok, b') = tree_remove true b id in Agrees ok b' (remove true fuel head head id b.ids h)
remove-Agrees fuel h head cells b id v l agree valid ne =
    elim (remove-Taken h id b.ids true fuel head cells v l) [
      | inl t ↦ elim (remove-takes b id valid ne) [
        | inl (ok, c, f, r, a) ↦
            let d = subst DistinctIds (sym agree) valid.distinct in
            record {
              heap = t.heap;
              head = t.head;
              cells = t.cells';
              result = rw (ok, remove_ids b id ne ok) t.result;
              list = t.list;
              contents =
                  Removed-without id (contacts cells) (contacts t.cells') t.contact d t.removed
                  ∙ ap (without id) agree
                  ∙ sym (
                      Removed-without id (in_order b.head) (in_order (tree_remove true b id).1.head)
                        c valid.distinct r);
            }
        | inr (refused, same, a) ↦ absurd (
            not-Absent id (contacts cells) (contacts t.cells') t.contact t.removed
              (subst (λ s. Absent s id) (sym agree) a))
      ]
      | inr (e, why) ↦ elim (remove-takes b id valid ne) [
        | inl (ok, c, f, r, a) ↦ absurd (
            kept why
              (not-Absent id (in_order b.head) (in_order (tree_remove true b id).1.head) c r))
        | inr (refused, same, a) ↦ record {
          heap = h;
          head = head;
          cells = cells;
          result = rw (refused, same) e;
          list = v;
          contents = agree ∙ ap (λ s. in_order s.head) (sym same);
        }
      ]
    ]
  where
    kept : (true ≡ false) ⊎ ((id ≡ 0) ⊎ Unlike id cells) → ¬ ¬ Absent (in_order b.head) id
    kept (inl e) = cc
    kept (inr (inl e)) = absurd (ne e)
    kept (inr (inr u)) = λ n. n (subst (λ s. Absent s id) agree (Unlike-contacts id cells u))
