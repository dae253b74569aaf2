-- ===== src/PhoneTree/Tree/Add.antt =====
-- `phone_book_add`: a stable sorted insertion that keeps the tree balanced.
use eltex_education.Common.{
  ℕ, zero, suc, ◌+◌, ◌*◌, ◌^◌, ◌≤◌, ◌<◌, ◌≡◌, refl, sym, inl, inr, true, false, List, [], ◌∷◌, ◌++◌,
  arith, length, if◌then◌else◌, All, All-map, All-append_left, All-append_right, Bool-cases,
  length-append,
}
use native.Mathlib.Nat.{pow-suc}
use native.Mathlib.Decide.{dec_lt}
use eltex_education.Common.CString.{follows, follows_trans, follows_asymm}
use eltex_education.PhoneTree.Contact.{Contact}
use eltex_education.PhoneTree.Tree.{Tree, leaf, node, height, balance, add}
use eltex_education.PhoneTree.Tree.Balance.{balance-Heights, in_order-balance}
use eltex_education.PhoneTree.Tree.View.{in_order, IsAvl}

-- `c` may stand before `d`.
abbrev pub Before : Contact → Contact → Type 0
Before c d = follows c.last_name d.last_name ≡ false

-- In the order of last names.
abbrev pub IsSorted : List Contact → Type 0
IsSorted [] = Unit
IsSorted (c ∷ cs) = All (Before c) cs × IsSorted cs

-- Behind every contact whose last name is not greater.
abbrev pub insert : Contact → List Contact → List Contact
insert c [] = c ∷ []
insert c (d ∷ ds) = if follows d.last_name c.last_name then c ∷ d ∷ ds else d ∷ insert c ds

insert_left :
    (c d : Contact) (xs ys : List Contact)
    → follows d.last_name c.last_name ≡ true
    → insert c (xs ++ (d ∷ ys)) ≡ insert c xs ++ (d ∷ ys)
insert_left c d [] ys h = rw h
insert_left c d (x ∷ xs) ys h = ground (arith, insert_left c d xs ys h)

insert_right :
    (c d : Contact) (xs ys : List Contact)
    → All (λ x. Before x c) xs
    → Before d c
    → insert c (xs ++ (d ∷ ys)) ≡ xs ++ (d ∷ insert c ys)
insert_right c d [] ys a h = rw h
insert_right c d (x ∷ xs) ys (p, a) h = ground (arith, insert_right c d xs ys a h)

IsSorted-parts :
    (xs : List Contact) (d : Contact) (ys : List Contact)
    → IsSorted (xs ++ (d ∷ ys))
    → IsSorted xs × All (λ x. Before x d) xs × All (Before d) ys × IsSorted ys
IsSorted-parts [] d ys (a, s) = (tt, tt, a, s)
IsSorted-parts (x ∷ xs) d ys (a, s) =
    let (p, q, r, t) = IsSorted-parts xs d ys s in
    (
      (All-append_left (Before x) xs (d ∷ ys) a, p),
      ((All-append_right (Before x) xs (d ∷ ys) a).0, q),
      r,
      t,
    )

All-insert :
    (P : Contact → Type 0) (c : Contact) (xs : List Contact) → P c → All P xs → All P (insert c xs)
All-insert P c [] p a = (p, tt)
All-insert P c (x ∷ xs) p (q, a) = elim (Bool-cases (follows x.last_name c.last_name)) [
  | inl h ↦ rw h (p, (q, a))
  | inr h ↦ rw h (q, All-insert P c xs p a)
]

insert-IsSorted : (c : Contact) (xs : List Contact) → IsSorted xs → IsSorted (insert c xs)
insert-IsSorted c [] s = (tt, tt)
insert-IsSorted c (x ∷ xs) (a, s) = elim (Bool-cases (follows x.last_name c.last_name)) [
  | inl h ↦
      let cx = follows_asymm x.last_name c.last_name h in
      rw h (
        (
          cx,
          All-map (Before x) (Before c) xs
              (λ y k. follows_trans c.last_name x.last_name y.last_name cx k) a,
        ),
        (a, s),
      )
  | inr h ↦ rw h (All-insert (Before x) c xs h a, insert-IsSorted c xs s)
]

pub add-left :
    (d c : Contact) (l r : Tree) (h : ℕ)
    → follows d.last_name c.last_name ≡ true
    → add (node d l r h) c ≡ balance d (add l c) r
unfolding add
add-left d c l r h q = rw q

pub add-right :
    (d c : Contact) (l r : Tree) (h : ℕ)
    → follows d.last_name c.last_name ≡ false
    → add (node d l r h) c ≡ balance d l (add r c)
unfolding add
add-right d c l r h q = rw q

in_order_insert :
    (t : Tree) (c : Contact) → IsSorted (in_order t) → in_order (add t c) ≡ insert c (in_order t)
unfolding add
in_order_insert leaf c s = refl
in_order_insert (node d l r h) c s =
    let (sl, before, after, sr) = IsSorted-parts (in_order l) d (in_order r) s in
    let il = in_order_insert l c sl in
    let ir = in_order_insert r c sr in
    elim (Bool-cases (follows d.last_name c.last_name)) [
      | inl q ↦
          rw (q, in_order-balance d (add l c) r, il)
            (sym (insert_left c d (in_order l) (in_order r) q))
      | inr q ↦
          rw (q, in_order-balance d l (add r c), ir)
            (sym (
              insert_right c d (in_order l) (in_order r)
                (All-map (λ x. Before x d) (λ x. Before x c) (in_order l)
                  (λ x k. follows_trans x.last_name d.last_name c.last_name k q) before)
                q))
    ]

pub record Added (t t' : Tree) : Type 0 where
  pub avl : IsAvl t'
  pub low : height t ≤ height t'
  pub high : height t' ≤ height t + 1

add-leaf : (c : Contact) → Added leaf (add leaf c)
unfolding add
add-leaf c = ground arith

add-Added : (t : Tree) (c : Contact) → IsAvl t → height t < 254 → Added t (add t c)
add-Added leaf c a h = add-leaf c
add-Added (node d l r k) c a h = elim (Bool-cases (follows d.last_name c.last_name)) [
  | inl q ↦
      let i = add-Added l c a.3 (omega arith) in
      let b = balance-Heights d (add l c) r i.avl a.4 (omega arith) (omega arith) (omega arith) in
      rw (add-left d c l r k q) (record { avl = b.avl; low = ground arith; high = omega arith })
  | inr q ↦
      let i = add-Added r c a.4 (omega arith) in
      let b = balance-Heights d l (add r c) a.3 i.avl (omega arith) (omega arith) (omega arith) in
      rw (add-right d c l r k q) (record { avl = b.avl; low = ground arith; high = omega arith })
]

-- `2 ^ k - 1` contacts at least, from height `2 * k` on.
size-ge-pow : (k : ℕ) (t : Tree) → IsAvl t → 2 * k ≤ height t → 2 ^ k ≤ suc (length (in_order t))
size-ge-pow zero t a h = omega arith
size-ge-pow (suc k) leaf a h = absurd (omega arith)
size-ge-pow (suc k) (node c l r n) (e, p, q, al, ar) h = omega (
  arith,
  length-append (in_order l) (c ∷ in_order r),
  size-ge-pow k l al (omega arith),
  size-ge-pow k r ar (omega arith),
  pow-suc 2 k,
)

-- A tree whose stored heights are right and whose nodes are balanced, of less than 2 ^ 127 - 1
-- contacts, has a height below 254, so that the `uint8_t` heights do not overflow when it grows by
-- one.
pub height_fits : (t : Tree) → IsAvl t → suc (length (in_order t)) < 2 ^ 127 → height t < 254
height_fits t a h = elim (dec_lt (height t) 254) [
  | yes p ↦ p
  | no p ↦ absurd (omega (arith, size-ge-pow 127 t a (omega arith)))
]

-- In a tree sorted by last name, `phone_book_add` puts the new contact behind all whose last name
-- is not greater and before the rest, leaves the other contacts in their order, and keeps the tree
-- sorted.
pub in_order-add :
    (t : Tree) (c : Contact)
    → IsSorted (in_order t)
    → (in_order (add t c) ≡ insert c (in_order t)) × IsSorted (in_order (add t c))
in_order-add t c s = let e = in_order_insert t c s in (e, rw e (insert-IsSorted c (in_order t) s))

-- In a tree whose stored heights are right and whose nodes are balanced, of less than 2 ^ 127 - 1
-- contacts, `phone_book_add` keeps every height right and every node balanced; the height does not
-- shrink and grows by one at most.
pub add-IsAvl :
    (t : Tree) (c : Contact)
    → IsAvl t
    → suc (length (in_order t)) < 2 ^ 127
    → IsAvl (add t c) × (height t ≤ height (add t c)) × (height (add t c) ≤ height t + 1)
add-IsAvl t c a h =
    let i = add-Added t c a (omega (arith, height_fits t a h)) in (i.avl, i.low, i.high)
