-- ===== src/PhoneTree/Tree/View.antt =====
-- The five ways through `balance`: which rotation it makes.
use eltex_education.Common.{
  ℕ, suc, ◌+◌, ◌≤◌, ◌<◌, ◌≡◌, refl, max, ◌≢◌, List, [], ◌∷◌, ◌++◌, arith, ltb, ◌==◌,
}
use native.Mathlib.Decide.{dec_le, ℕ_discrete}
use mathlib.Core.List.{append_assoc}
use eltex_education.Common.Int.{pos, negsuc, sub_ℕ}
use eltex_education.PhoneTree.Contact.{Contact}
use eltex_education.PhoneTree.Tree.{
  Tree, leaf, node, height, balance, fix_height, equals_ℤ, is_negative, is_positive,
}

-- The contacts from left to right.
abbrev pub in_order : Tree → List Contact
in_order leaf = []
in_order (node c l r h) = in_order l ++ (c ∷ in_order r)

-- Every stored height is right, and the heights of two siblings differ by at most one.
abbrev pub IsAvl : Tree → Type 0
IsAvl leaf = Unit {0}
IsAvl (node c l r h) =
    (h ≡ suc (max (height l) (height r)))
    × (height l ≤ height r + 1)
    × (height r ≤ height l + 1)
    × IsAvl l
    × IsAvl r

-- The children may differ by two, as after one insertion or removal below.
pub record Heights (l r t : Tree) : Type 0 where
  pub avl : IsAvl t
  pub low : max (height l) (height r) ≤ height t
  pub high : height t ≤ suc (max (height l) (height r))
  pub same :
      height l ≤ height r + 1 → height r ≤ height l + 1 → height t ≡ suc (max (height l) (height r))

-- The tests of `balance` on numbers.
two_more : (a b : ℕ) → equals_ℤ (sub_ℕ a b) (pos 2) ≡ (a == b + 2)
unfolding equals_ℤ
two_more a b = ground arith

two_less : (a b : ℕ) → equals_ℤ (sub_ℕ a b) (negsuc 1) ≡ (b == a + 2)
unfolding equals_ℤ
two_less a b = ground arith

negative : (a b : ℕ) → is_negative (sub_ℕ a b) ≡ ltb a b
unfolding is_negative
negative a b = ground arith

positive : (a b : ℕ) → is_positive (sub_ℕ a b) ≡ ltb b a
unfolding is_positive
positive a b = ground arith

-- The five ways through `balance`.
balance-flat :
    (c : Contact) (l r : Tree)
    → height r ≢ height l + 2
    → height l ≢ height r + 2
    → balance c l r ≡ fix_height c l r
unfolding balance
balance-flat c l r p q =
    rw (two_more (height r) (height l), two_less (height r) (height l)) (ground arith)

balance-left :
    (c e : Contact) (l x y : Tree) (k : ℕ)
    → k ≡ height l + 2
    → height x ≤ height y
    → balance c l (node e x y k) ≡ fix_height e (fix_height c l x) y
unfolding balance
balance-left c e l x y k p q =
    rw (two_more k (height l), negative (height y) (height x)) (ground arith)

balance-left_double :
    (c e f : Contact) (l u v y : Tree) (j k : ℕ)
    → k ≡ height l + 2
    → height y < j
    → balance c l (node e (node f u v j) y k) ≡ fix_height f (fix_height c l u) (fix_height e v y)
unfolding balance
balance-left_double c e f l u v y j k p q =
    rw (two_more k (height l), negative (height y) j) (ground arith)

balance-right :
    (c d : Contact) (a b r : Tree) (h : ℕ)
    → h ≡ height r + 2
    → height b ≤ height a
    → balance c (node d a b h) r ≡ fix_height d a (fix_height c b r)
unfolding balance
balance-right c d a b r h p q =
    rw (two_more (height r) h, two_less (height r) h, positive (height b) (height a)) (ground arith)

balance-right_double :
    (c d f : Contact) (a u v r : Tree) (h j : ℕ)
    → h ≡ height r + 2
    → height a < j
    → balance c (node d a (node f u v j) h) r ≡ fix_height f (fix_height d a u) (fix_height c v r)
unfolding balance
balance-right_double c d f a u v r h j p q =
    rw (two_more (height r) h, two_less (height r) h, positive j (height a)) (ground arith)

-- Every call of `balance` is one of the five, so a rotation always finds the child that it lifts.
pub data View (c : Contact) (l r : Tree) : Type 0 where
  flat :
      height r ≢ height l + 2
      → height l ≢ height r + 2
      → balance c l r ≡ fix_height c l r
      → View c l r
  left :
      (e : Contact) (x y : Tree) (k : ℕ)
      → r ≡ node e x y k
      → k ≡ height l + 2
      → height x ≤ height y
      → balance c l r ≡ fix_height e (fix_height c l x) y
      → View c l r
  left_double :
      (e f : Contact) (u v y : Tree) (j k : ℕ)
      → r ≡ node e (node f u v j) y k
      → k ≡ height l + 2
      → height y < j
      → balance c l r ≡ fix_height f (fix_height c l u) (fix_height e v y)
      → View c l r
  right :
      (d : Contact) (a b : Tree) (h : ℕ)
      → l ≡ node d a b h
      → h ≡ height r + 2
      → height b ≤ height a
      → balance c l r ≡ fix_height d a (fix_height c b r)
      → View c l r
  right_double :
      (d f : Contact) (a u v : Tree) (h j : ℕ)
      → l ≡ node d a (node f u v j) h
      → h ≡ height r + 2
      → height a < j
      → balance c l r ≡ fix_height f (fix_height d a u) (fix_height c v r)
      → View c l r

View-left : (c e : Contact) (l x y : Tree) (k : ℕ) → k ≡ height l + 2 → View c l (node e x y k)
View-left c e l leaf y k p =
    left e leaf y k refl p (omega arith) (balance-left c e l leaf y k p (omega arith))
View-left c e l (node f u v j) y k p = elim (dec_le j (height y)) [
  | yes q ↦ left e (node f u v j) y k refl p q (balance-left c e l (node f u v j) y k p q)
  | no q ↦
      left_double e f u v y j k refl p (omega arith)
        (balance-left_double c e f l u v y j k p (omega arith))
]

View-right : (c d : Contact) (a b r : Tree) (h : ℕ) → h ≡ height r + 2 → View c (node d a b h) r
View-right c d a leaf r h p =
    right d a leaf h refl p (omega arith) (balance-right c d a leaf r h p (omega arith))
View-right c d a (node f u v j) r h p = elim (dec_le j (height a)) [
  | yes q ↦ right d a (node f u v j) h refl p q (balance-right c d a (node f u v j) r h p q)
  | no q ↦
      right_double d f a u v h j refl p (omega arith)
        (balance-right_double c d f a u v r h j p (omega arith))
]

View-more : (c : Contact) (l r : Tree) → height r ≡ height l + 2 → View c l r
View-more c l leaf p = absurd (omega arith)
View-more c l (node e x y k) p = View-left c e l x y k p

View-less : (c : Contact) (l r : Tree) → height l ≡ height r + 2 → View c l r
View-less c leaf r p = absurd (omega arith)
View-less c (node d a b h) r p = View-right c d a b r h p

pub view : (c : Contact) (l r : Tree) → View c l r
view c l r = elim (ℕ_discrete (height r) (height l + 2)) [
  | yes p ↦ View-more c l r p
  | no p ↦ elim (ℕ_discrete (height l) (height r + 2)) [
    | yes q ↦ View-less c l r q
    | no q ↦ flat p q (balance-flat c l r p q)
  ]
]

pub in_order-View :
    (c : Contact) (l r : Tree)
    → View c l r
    → in_order (balance c l r) ≡ in_order l ++ (c ∷ in_order r)
in_order-View c l r (flat p q t) = rw t
in_order-View c l r (left e x y k s p q t) =
    rw (t, s) (append_assoc (in_order l) (c ∷ in_order x) (e ∷ in_order y))
in_order-View c l r (left_double e f u v y j k s p q t) = rw (t, s) (simp append_assoc)
in_order-View c l r (right d a b h s p q t) = rw (t, s) (simp append_assoc)
in_order-View c l r (right_double d f a u v h j s p q t) = rw (t, s) (simp append_assoc)
