-- ===== src/PhoneList/Link.antt =====
-- The three branches of `phone_book_add`: at the front, at the end and between two nodes.
use eltex_education.Common.{
  ℕ, ◌<◌, ◌≡◌, ◌≢◌, refl, sym, true, false, Option, some, [], ◌∷◌, ◌++◌, arith, ◌==◌, length, All,
  All-map, All-append_left, All-append_right,
}
use eltex_education.PhoneTree.Contact.{Contact}
use eltex_education.PhoneList.Heap.{Ptr, null, Node, node, Heap, write}
use eltex_education.PhoneList.Heap.Chain.{
  Cells, first_or, last_or, Chain, Apart, DistinctCells, Chain-frame, Chain-append, Chain-split,
  DistinctCells-split, All-last, Chain-last, load-ok, set_next-ok, set_previous-ok,
}
use eltex_education.PhoneList.Add.{find_tail-last}
use eltex_education.PhoneList.Operations.{link_at}

pub same : (a : ℕ) → (a == a) ≡ true
same a = ground arith

pub differ : (a b : ℕ) → a ≢ b → (a == b) ≡ false
differ a b h = ground arith

-- Nothing but the nodes of these cells has changed.
abbrev pub SameOutside : Cells → Heap → Heap → Type 0
SameOutside cells h g = (a : Ptr) → Apart a cells → g a ≡ h a

-- The node stands between the cells, and the list begins at the address.
pub record Linked (h : Heap) (p : Ptr) (c : Contact) (xs ys : Cells) (r : Option (Ptr × Heap))
    : Type 0 where
  pub heap : Heap
  pub result : r ≡ some (first_or xs p, heap)
  pub chain : Chain heap null (xs ++ ((p, c) ∷ ys)) null
  pub outside : SameOutside (xs ++ ((p, c) ∷ ys)) h heap

-- The first of the later cells is none of the earlier ones.
Apart-first :
    (q : Ptr) (d : Contact) (xs : Cells) (u : Ptr) (b : Contact) (ys : Cells)
    → All (λ cell. Apart cell.0 ((u, b) ∷ ys)) ((q, d) ∷ xs)
    → Apart u ((q, d) ∷ xs)
Apart-first q d xs u b ys far =
    All-map (λ cell. Apart cell.0 ((u, b) ∷ ys)) (λ cell. cell.0 ≢ u) ((q, d) ∷ xs)
      (λ cell f e. f.0 (sym e)) far

module _ (fuel : ℕ) (h : Heap) (p : Ptr) (c : Contact) (lp : 0 < p)
    (fresh : h p ≡ some (node c null null)) where
  link-front :
      (q : Ptr) (d : Contact) (ys : Cells)
      → Chain h null ((q, d) ∷ ys) null
      → Apart p ((q, d) ∷ ys)
      → DistinctCells ((q, d) ∷ ys)
      → Linked h p c [] ((q, d) ∷ ys) (link_at fuel q p q h)
  unfolding link_at
  link-front q d ys (l, e, k) (ne, a) (b, dis) =
      let h1 : Heap = write h p (some (node c q null)) in
      let n : Node = node d (first_or ys null) null in
      let e1 : h1 q ≡ some n = ground arith in
      record {
        heap = write h1 q (some (node d (first_or ys null) p));
        result =
            rw
              (same q, set_next-ok h p (node c null null) lp fresh q, set_previous-ok h1 q n l e1 p)
              refl;
        chain = (
          lp,
          ground arith,
          (l, ground arith, Chain-frame h1 q _ q ys null b (Chain-frame h p _ q ys null a k)),
        );
        outside = λ s (x, (y, z)). ground arith;
      }

  link-end :
      (q : Ptr) (d : Contact) (xs : Cells)
      → Chain h null ((q, d) ∷ xs) null
      → Apart p ((q, d) ∷ xs)
      → DistinctCells ((q, d) ∷ xs)
      → length xs < fuel
      → Linked h p c ((q, d) ∷ xs) [] (link_at fuel q p null h)
  unfolding link_at
  link-end q d xs k a dis f =
      let (e, r, pos, at, relink) = Chain-last h null q d xs null k in
      let t : Ptr = last_or xs q in
      let ne : t ≢ p = All-last (λ s. s ≢ p) q d xs a in
      let h1 : Heap = write h t (some (node e p r)) in
      let e1 : h1 p ≡ some (node c null null) = ground arith in
      record {
        heap = write h1 p (some (node c null t));
        result =
            rw
              (
                differ null q (let l = k.0 in omega arith),
                find_tail-last fuel h null q d xs k f,
                set_next-ok h t (node e null r) pos at p,
                set_previous-ok h1 p (node c null null) lp e1 t,
              )
              refl;
        chain =
            Chain-append _ null ((q, d) ∷ xs) ((p, c) ∷ []) null
              (Chain-frame h1 p _ null ((q, d) ∷ xs) p a (relink dis p)) (lp, ground arith, tt);
        outside = λ s o.
            let y =
              All-last (λ u. u ≢ s) q d xs
                (All-append_left (λ cell. cell.0 ≢ s) ((q, d) ∷ xs) ((p, c) ∷ []) o) in
            let z = (All-append_right (λ cell. cell.0 ≢ s) ((q, d) ∷ xs) ((p, c) ∷ []) o).0 in
            ground arith;
      }

  link-between :
      (q : Ptr) (d : Contact) (xs : Cells) (u : Ptr) (b : Contact) (ys : Cells)
      → Chain h null ((q, d) ∷ xs) u
      → Chain h (last_or xs q) ((u, b) ∷ ys) null
      → Apart p ((q, d) ∷ xs)
      → Apart p ((u, b) ∷ ys)
      → DistinctCells ((q, d) ∷ xs)
      → DistinctCells ((u, b) ∷ ys)
      → All (λ cell. Apart cell.0 ((u, b) ∷ ys)) ((q, d) ∷ xs)
      → Linked h p c ((q, d) ∷ xs) ((u, b) ∷ ys) (link_at fuel q p u h)
  unfolding link_at
  link-between q d xs u b ys k (lu, eu, m) a (nu, a') dis (du, dis') far =
      let t : Ptr = last_or xs q in
      let nb : Node = node b (first_or ys null) t in
      let h1 : Heap = write h p (some (node c null t)) in
      let h2 : Heap = write h1 p (some (node c u t)) in
      let e1 : h1 p ≡ some (node c null t) = ground arith in
      let e2 : h2 u ≡ some nb = ground arith in
      let k2 =
        Chain-frame h1 p _ null ((q, d) ∷ xs) u a (Chain-frame h p _ null ((q, d) ∷ xs) u a k) in
      let (e, r, pos, at, relink) = Chain-last h2 null q d xs u k2 in
      let nt : t ≢ p = All-last (λ s. s ≢ p) q d xs a in
      let apart : Apart t ((u, b) ∷ ys) = All-last (λ s. Apart s ((u, b) ∷ ys)) q d xs far in
      let tu = apart.0 in
      let h3 : Heap = write h2 t (some (node e p r)) in
      let e3 : h3 u ≡ some nb = ground arith in
      let away = Apart-first q d xs u b ys far in
      record {
        heap = write h3 u (some (node b (first_or ys null) p));
        result =
            rw
              (
                differ u q far.0.0,
                differ u null (omega arith),
                load-ok h u nb lu eu,
                set_previous-ok h p (node c null null) lp fresh t,
                set_next-ok h1 p (node c null t) lp e1 u,
                load-ok h2 u nb lu e2,
                set_next-ok h2 t (node e u r) pos at p,
                set_previous-ok h3 u nb lu e3 p,
              )
              refl;
        chain =
            Chain-append _ null ((q, d) ∷ xs) ((p, c) ∷ (u, b) ∷ ys) null
              (Chain-frame h3 u _ null ((q, d) ∷ xs) p away (relink dis p))
              (
                lp,
                ground arith,
                (
                  lu,
                  ground arith,
                  Chain-frame h3 u _ u ys null du (
                      Chain-frame h2 t _ u ys null apart.1
                        (Chain-frame h1 p _ u ys null a' (Chain-frame h p _ u ys null a' m))),
                ),
              );
        outside = λ s o.
            let y =
              All-last (λ v. v ≢ s) q d xs
                (All-append_left (λ cell. cell.0 ≢ s) ((q, d) ∷ xs) ((p, c) ∷ (u, b) ∷ ys) o) in
            let z = All-append_right (λ cell. cell.0 ≢ s) ((q, d) ∷ xs) ((p, c) ∷ (u, b) ∷ ys) o in
            let zp = z.0 in let zu = z.1.0 in ground arith;
      }

  pub link_at-Linked :
      (xs ys : Cells)
      → Chain h null (xs ++ ys) null
      → Apart p (xs ++ ys)
      → DistinctCells (xs ++ ys)
      → xs ++ ys ≢ []
      → length xs < fuel
      → Linked h p c xs ys (link_at fuel (first_or (xs ++ ys) null) p (first_or ys null) h)
  link_at-Linked [] [] k a d ne f = absurd (ne refl)
  link_at-Linked [] ((q, b) ∷ ys) k a d ne f = link-front q b ys k a d
  link_at-Linked ((q, b) ∷ xs) [] k a d ne f =
      let (k', m) = Chain-split h null ((q, b) ∷ xs) [] null k in
      let (x, y, far) = DistinctCells-split ((q, b) ∷ xs) [] d in
      link-end q b xs k' (All-append_left (λ cell. cell.0 ≢ p) ((q, b) ∷ xs) [] a) x (omega arith)
  link_at-Linked ((q, b) ∷ xs) ((u, e) ∷ ys) k a d ne f =
      let (k', m) = Chain-split h null ((q, b) ∷ xs) ((u, e) ∷ ys) null k in
      let (x, y, far) = DistinctCells-split ((q, b) ∷ xs) ((u, e) ∷ ys) d in
      link-between q b xs u e ys k' m
        (All-append_left (λ cell. cell.0 ≢ p) ((q, b) ∷ xs) ((u, e) ∷ ys) a)
        (All-append_right (λ cell. cell.0 ≢ p) ((q, b) ∷ xs) ((u, e) ∷ ys) a) x y far
