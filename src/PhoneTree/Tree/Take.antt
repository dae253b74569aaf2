-- ===== src/PhoneTree/Tree/Take.antt =====
-- What `phone_book_extract_node` takes out, and the order of the rest.
use mathlib.Core.List.{append_assoc, append-nil}
use eltex_education.Common.{
  ℕ, ◌≡◌, refl, ap, sym, ◌≢◌, true, false, Option, none, some, inl, inr, List, [], ◌∷◌, ◌++◌, arith,
  ◌==◌, All, All-append, Bool-cases, Option-cases, ==_iff,
}
use eltex_education.PhoneTree.Contact.{Contact}
use eltex_education.PhoneTree.Tree.{
  Tree, leaf, node, balance, find_min, remove_min, join, extract_node,
}
use eltex_education.PhoneTree.Tree.Balance.{in_order-balance}
use eltex_education.PhoneTree.Tree.View.{in_order}

in_order_remove_min :
    (c : Contact) (l r : Tree)
    → find_min c l ∷ in_order (remove_min c l r) ≡ in_order l ++ (c ∷ in_order r)
unfolding find_min remove_min
in_order_remove_min c leaf r = refl
in_order_remove_min c (node d a b k) r =
    rw (in_order-balance c (remove_min d a b) r)
      (ap (λ xs. xs ++ (c ∷ in_order r)) (in_order_remove_min d a b))

in_order-join : (l r : Tree) → in_order (join l r) ≡ in_order l ++ in_order r
unfolding join
in_order-join l leaf = sym (append-nil (in_order l))
in_order-join l (node d a b k) =
    rw (in_order-balance (find_min d a) l (remove_min d a b))
      (ap (λ xs. in_order l ++ xs) (in_order_remove_min d a b))

-- From `xs` to `xs'` the contact `d` left, which has this id; or there was none.
abbrev pub Removed : ℕ → List Contact → List Contact → Option Contact → Type 0
Removed id xs xs' none = (xs' ≡ xs) × All (λ c. c.id ≢ id) xs
Removed id xs xs' (some d) =
    (before : List Contact) × (after : List Contact) × (xs ≡ before ++ (d ∷ after))
    × (xs' ≡ before ++ after)
    × (d.id ≡ id)

pub Removed-left :
    (id : ℕ) (xs xs' ys : List Contact) (d : Contact)
    → Removed id xs xs' (some d)
    → Removed id (xs ++ ys) (xs' ++ ys) (some d)
Removed-left id xs xs' ys d (p, q, e, f, g) =
    (p, q ++ ys, rw e (append_assoc p (d ∷ q) ys), rw f (append_assoc p q ys), g)

pub Removed-right :
    (id : ℕ) (xs ys ys' : List Contact) (d : Contact)
    → Removed id ys ys' (some d)
    → Removed id (xs ++ ys) (xs ++ ys') (some d)
Removed-right id xs ys ys' d (p, q, e, f, g) =
    (xs ++ p, q, rw e (sym (append_assoc xs p (d ∷ q))), rw f (sym (append_assoc xs p q)), g)

-- One node, when its own id differs.
pub extract-left :
    (c d : Contact) (l r : Tree) (h id : ℕ)
    → (c.id == id) ≡ false
    → (extract_node l id).1 ≡ some d
    → extract_node (node c l r h) id ≡ (balance c (extract_node l id).0 r, some d)
unfolding extract_node
extract-left c d l r h id q e = rw (q, e)

pub extract-right :
    (c : Contact) (l r : Tree) (h id : ℕ)
    → (c.id == id) ≡ false
    → (extract_node l id).1 ≡ none
    → extract_node (node c l r h) id
      ≡ (balance c (extract_node l id).0 (extract_node r id).0, (extract_node r id).1)
unfolding extract_node
extract-right c l r h id q e = rw (q, e)

pub extract-here :
    (c : Contact) (l r : Tree) (h id : ℕ)
    → (c.id == id) ≡ true
    → extract_node (node c l r h) id ≡ (join l r, some c)
unfolding extract_node
extract-here c l r h id q = rw q

abbrev Takes : Tree → ℕ → Tree × Option Contact → Type 0
Takes t id (t', o) = Removed id (in_order t) (in_order t') o

Takes-right :
    (c : Contact) (l r : Tree) (h id : ℕ) (l' : Tree) (out : Tree × Option Contact)
    → c.id ≢ id
    → Removed id (in_order l) (in_order l') none
    → Takes r id out
    → Takes (node c l r h) id (balance c l' out.0, out.1)
Takes-right c l r h id l' (r', none) ne (e, a) (f, b) = (
  rw (in_order-balance c l' r', e, f),
  All-append (λ x. x.id ≢ id) (in_order l) (c ∷ in_order r) a (ne, b),
)
Takes-right c l r h id l' (r', some d) ne (e, a) rem =
    rw (in_order-balance c l' r', e)
      (Removed-right id (in_order l) (c ∷ in_order r) (c ∷ in_order r') d
        (Removed-right id (c ∷ []) (in_order r) (in_order r') d rem))

Takes-left :
    (c d : Contact) (l r : Tree) (h id : ℕ) (l' : Tree)
    → Removed id (in_order l) (in_order l') (some d)
    → Takes (node c l r h) id (balance c l' r, some d)
Takes-left c d l r h id l' rem =
    rw (in_order-balance c l' r) (Removed-left id (in_order l) (in_order l') (c ∷ in_order r) d rem)

extract-nil : (id : ℕ) → Takes leaf id (extract_node leaf id)
unfolding extract_node
extract-nil id = (refl, tt)

pub extract-Takes : (t : Tree) (id : ℕ) → Takes t id (extract_node t id)
extract-Takes leaf id = extract-nil id
extract-Takes (node c l r h) id =
    let left = extract-Takes l id in
    let right = extract-Takes r id in
    elim (Bool-cases (c.id == id)) [
      | inl q ↦
          rw (extract-here c l r h id q)
            (in_order l, in_order r, refl, in_order-join l r, (==_iff c.id id).0 q)
      | inr q ↦ elim (Option-cases (extract_node l id).1) [
        | inr (d, e) ↦
            rw (extract-left c d l r h id q e)
              (Takes-left c d l r h id (extract_node l id).0 (rw e at left))
        | inl e ↦ rw (extract-right c l r h id q e) (
            Takes-right c l r h id (extract_node l id).0 (extract_node r id) (ground arith)
              (rw e at left) right)
      ]
    ]
