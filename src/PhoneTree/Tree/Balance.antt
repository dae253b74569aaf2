-- ===== src/PhoneTree/Tree/Balance.antt =====
-- What `balance` does: it keeps the order, restores the balance, and never dereferences NULL.
use eltex_education.Common.{
  ℕ, suc, ◌+◌, ◌≤◌, ◌<◌, ◌≡◌, subst, ap, max, ◌⊎◌, ◌∷◌, ◌++◌, arith, ltb, if◌then◌else◌,
}
use eltex_education.Common.Memory.Words.{u8}
use eltex_education.PhoneTree.Contact.{Contact}
use eltex_education.PhoneTree.Tree.{Tree, height, balance, fix_height}
use eltex_education.PhoneTree.Tree.View.{
  flat, left, left_double, right, right_double, in_order, IsAvl, Heights, View, view, in_order-View,
}

fixed_height : (a b : ℕ) → max a b < 255 → u8 ((if ltb b a then a else b) + 1) ≡ suc (max a b)
fixed_height a b h = ground arith

Heights-flat :
    (c : Contact) (l r : Tree)
    → IsAvl l
    → IsAvl r
    → height l ≤ height r + 1
    → height r ≤ height l + 1
    → max (height l) (height r) < 255
    → Heights l r (fix_height c l r)
Heights-flat c l r al ar p q s =
    let e = fixed_height (height l) (height r) s in
    record {
      avl = (e, p, q, al, ar);
      low = omega (arith, e);
      high = omega (arith, e);
      same = λ _ _. e;
    }

-- The node on top, where the heights of the old children say what its height may be.
Heights-outer :
    (c : Contact) (l r l' r' : Tree)
    → IsAvl l
    → IsAvl r
    → height l ≤ height r + 1
    → height r ≤ height l + 1
    → max (height l) (height r) < 255
    → max (height l') (height r') ≤ suc (max (height l) (height r))
    → max (height l) (height r) ≤ max (height l') (height r')
    → (height l' + 2 ≤ height r') ⊎ (height r' + 2 ≤ height l')
    → Heights l' r' (fix_height c l r)
Heights-outer c l r l' r' al ar p q s lo hi far =
    let h = Heights-flat c l r al ar p q s in
    let e = h.same p q in
    record {
      avl = h.avl;
      low = omega arith;
      high = omega arith;
      same = λ x y. absurd (omega arith);
    }

Heights-View :
    (c : Contact) (l r : Tree)
    → View c l r
    → IsAvl l
    → IsAvl r
    → height l ≤ height r + 2
    → height r ≤ height l + 2
    → max (height l) (height r) < 255
    → Heights l r (balance c l r)
Heights-View c l r (flat p q t) al ar hl hr s =
    rw t (Heights-flat c l r al ar (omega arith) (omega arith) s)
Heights-View c l r (left e x y k z p q t) al ar hl hr s =
    let (ek, h1, h2, ax, ay) = subst IsAvl z ar in
    let ez = ap height z in
    let inner = Heights-flat c l x al ax (omega arith) (omega arith) (omega arith) in
    let e1 = inner.same (omega arith) (omega arith) in
    rw t (
      Heights-outer e (fix_height c l x) y l r inner.avl ay (omega arith) (omega arith)
        (omega arith) (omega arith) (omega arith) (omega arith))
Heights-View c l r (left_double e f u v y j k z p q t) al ar hl hr s =
    let (ek, h1, h2, (ej, g1, g2, au, av), ay) = subst IsAvl z ar in
    let ez = ap height z in
    let one = Heights-flat c l u al au (omega arith) (omega arith) (omega arith) in
    let two = Heights-flat e v y av ay (omega arith) (omega arith) (omega arith) in
    let e1 = one.same (omega arith) (omega arith) in
    let e2 = two.same (omega arith) (omega arith) in
    rw t (
      Heights-outer f (fix_height c l u) (fix_height e v y) l r one.avl two.avl (omega arith)
        (omega arith) (omega arith) (omega arith) (omega arith) (omega arith))
Heights-View c l r (right d a b h z p q t) al ar hl hr s =
    let (ek, h1, h2, aa, ab) = subst IsAvl z al in
    let ez = ap height z in
    let inner = Heights-flat c b r ab ar (omega arith) (omega arith) (omega arith) in
    let e1 = inner.same (omega arith) (omega arith) in
    rw t (
      Heights-outer d a (fix_height c b r) l r aa inner.avl (omega arith) (omega arith)
        (omega arith) (omega arith) (omega arith) (omega arith))
Heights-View c l r (right_double d f a u v h j z p q t) al ar hl hr s =
    let (ek, h1, h2, aa, (ej, g1, g2, au, av)) = subst IsAvl z al in
    let ez = ap height z in
    let one = Heights-flat d a u aa au (omega arith) (omega arith) (omega arith) in
    let two = Heights-flat c v r av ar (omega arith) (omega arith) (omega arith) in
    let e1 = one.same (omega arith) (omega arith) in
    let e2 = two.same (omega arith) (omega arith) in
    rw t (
      Heights-outer f (fix_height d a u) (fix_height c v r) l r one.avl two.avl (omega arith)
        (omega arith) (omega arith) (omega arith) (omega arith) (omega arith))

-- `balance` keeps the contacts and their order.
pub in_order-balance :
    (c : Contact) (l r : Tree) → in_order (balance c l r) ≡ in_order l ++ (c ∷ in_order r)
in_order-balance c l r = in_order-View c l r (view c l r)

-- `balance` makes an AVL tree of two whose heights differ by at most two.
pub balance-Heights :
    (c : Contact) (l r : Tree)
    → IsAvl l
    → IsAvl r
    → height l ≤ height r + 2
    → height r ≤ height l + 2
    → max (height l) (height r) < 255
    → Heights l r (balance c l r)
balance-Heights c l r = Heights-View c l r (view c l r)
