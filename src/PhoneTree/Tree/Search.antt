-- ===== src/PhoneTree/Tree/Search.antt =====
-- The searches: `phone_book_find_by_id` and `phone_book_find`, which never change the tree.
use eltex_education.Common.{
  ℕ, ◌≡◌, ◌≢◌, ◌⊎◌, refl, ◌∙◌, ap, sym, Bool, true, false, none, some, inl, inr, List, [], ◌∷◌,
  ◌++◌, arith, ◌==◌, ◌&&◌, if◌then◌else◌, Bool-cases, Option-cases, length,
}
use mathlib.Core.List.{append_assoc, append-nil}
use eltex_education.Common.Memory.{Pointer}
use eltex_education.Common.CString.{CString}
use eltex_education.PhoneTree.Contact.{Contact}
use eltex_education.PhoneTree.Tree.{
  Tree, leaf, node, find_by_id, extract_node, matches, find_in_tree, find,
}
use eltex_education.PhoneTree.Tree.View.{in_order}
use eltex_education.PhoneTree.Tree.Take.{extract-left, extract-right, extract-here}

find-here :
    (c : Contact) (l r : Tree) (h id : ℕ)
    → (c.id == id) ≡ true
    → find_by_id (node c l r h) id ≡ some c
unfolding find_by_id
find-here c l r h id q = rw q

find-left :
    (c d : Contact) (l r : Tree) (h id : ℕ)
    → (c.id == id) ≡ false
    → find_by_id l id ≡ some d
    → find_by_id (node c l r h) id ≡ some d
unfolding find_by_id
find-left c d l r h id q e = rw (q, e)

find-right :
    (c : Contact) (l r : Tree) (h id : ℕ)
    → (c.id == id) ≡ false
    → find_by_id l id ≡ none
    → find_by_id (node c l r h) id ≡ find_by_id r id
unfolding find_by_id
find-right c l r h id q e = rw (q, e)

extract-nothing : (id : ℕ) → (extract_node leaf id).1 ≡ find_by_id leaf id
unfolding extract_node find_by_id
extract-nothing id = refl

-- `phone_book_find_by_id` finds the contact that `phone_book_extract_node` takes out, also where
-- several have the id.
pub find_by_id-extract : (t : Tree) (id : ℕ) → (extract_node t id).1 ≡ find_by_id t id
find_by_id-extract leaf id = extract-nothing id
find_by_id-extract (node c l r h) id =
    let il = find_by_id-extract l id in
    let ir = find_by_id-extract r id in
    elim (Bool-cases (c.id == id)) [
      | inl q ↦ rw (extract-here c l r h id q) (sym (find-here c l r h id q))
      | inr q ↦ elim (Option-cases (extract_node l id).1) [
        | inr (d, e) ↦
            rw (extract-left c d l r h id q e) (sym (find-left c d l r h id q (sym il ∙ e)))
        | inl e ↦
            rw (extract-right c l r h id q e) (ir ∙ sym (find-right c l r h id q (sym il ∙ e)))
      ]
    ]

abbrev pub keep : (Contact → Bool) → List Contact → List Contact
keep p [] = []
keep p (c ∷ cs) = if p c then c ∷ keep p cs else keep p cs

keep-append :
    (p : Contact → Bool) (xs ys : List Contact) → keep p (xs ++ ys) ≡ keep p xs ++ keep p ys
keep-append p [] ys = refl
keep-append p (x ∷ xs) ys = ground (arith, keep-append p xs ys)

abbrev pub wanted : Pointer CString → Pointer CString → Contact → Bool
wanted name last_name c = matches name c.name && matches last_name c.last_name

find_in_tree-keep :
    (alloc : ℕ → Bool) (t : Tree) (name last_name : Pointer CString) (found : List Contact)
    → ((n : ℕ) → alloc n ≡ true)
    → find_in_tree alloc t name last_name found
      ≡ some (found ++ keep (wanted name last_name) (in_order t))
unfolding find_in_tree
find_in_tree-keep alloc leaf name last found ok = ap some (sym (append-nil found))
find_in_tree-keep alloc (node c l r h) name last found ok =
    let before = found ++ keep (wanted name last) (in_order l) in
    let skip = find_in_tree-keep alloc r name last before ok in
    let take = find_in_tree-keep alloc r name last (before ++ (c ∷ [])) ok in
    rw
      (
        find_in_tree-keep alloc l name last found ok,
        keep-append (wanted name last) (in_order l) (c ∷ in_order r),
        ok (length before),
      )
      (elim (Bool-cases (wanted name last c)) [
        | inl t ↦ rw t (take ∙ ap some (simp append_assoc))
        | inr f ↦ rw f (skip ∙ ap some (simp append_assoc))
      ])

-- While `realloc` succeeds, the searches by name, by last name and by both return exactly the
-- contacts of the tree that match, in the order of the tree; with no pattern they return nothing.
pub find-keep :
    (alloc : ℕ → Bool) (t : Tree) (name last_name : Pointer CString)
    → ((n : ℕ) → alloc n ≡ true)
    → ((name ≡ none) × (last_name ≡ none) × (find alloc t name last_name ≡ []))
      ⊎ (((name ≢ none) ⊎ (last_name ≢ none))
          × (find alloc t name last_name ≡ keep (wanted name last_name) (in_order t)))
unfolding find
find-keep alloc t none none ok = inl (refl, refl, refl)
find-keep alloc t (some n) none ok =
    inr (inl (λ e. cc), rw (find_in_tree-keep alloc t (some n) none [] ok, find))
find-keep alloc t (some n) (some l) ok =
    inr (inl (λ e. cc), rw (find_in_tree-keep alloc t (some n) (some l) [] ok, find))
find-keep alloc t none (some l) ok =
    inr (inr (λ e. cc), rw (find_in_tree-keep alloc t none (some l) [] ok, find))
