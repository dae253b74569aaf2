-- ===== src/PhoneList/Detach.antt =====
-- `phone_book_detach`: the neighbours of the node are linked to each other.
use eltex_education.Common.{
  ◌≡◌, ◌≢◌, ◌∙◌, refl, true, Option, some, [], ◌∷◌, ◌++◌, arith, ◌!=◌, if◌then◌else◌,
  All-append_left, All-append_right, All-map,
}
use eltex_education.PhoneTree.Contact.{Contact}
use eltex_education.PhoneList.Heap.{Ptr, null, Node, node, Heap, Cmd, pure, write, set_previous}
use eltex_education.PhoneList.Heap.Chain.{
  Cells, first_or, last_or, Chain, Apart, DistinctCells, Chain-frame, Chain-append, Chain-split,
  DistinctCells-split, DistinctCells-without, Apart-flip, Chain-same, All-last, Chain-last, load-ok,
  set_next-ok, set_previous-ok,
}
use eltex_education.PhoneList.Insert.{IsList}
use eltex_education.PhoneList.Operations.{bypass, detach}

-- The cells before the node, linked to the end that the node had.
record Bypassed (h : Heap) (p end head : Ptr) (xs : Cells) (r : Option (Ptr × Heap)) : Type 0 where
  heap : Heap
  result : r ≡ some (first_or xs end, heap)
  chain : Chain heap null xs end
  outside : (a : Ptr) → Apart a xs → heap a ≡ h a

bypass-Bypassed :
    (h : Heap) (p end : Ptr) (c : Contact) (xs : Cells)
    → Chain h null xs p
    → DistinctCells xs
    → Bypassed h p end (first_or xs p) xs (bypass (first_or xs p) (node c end (last_or xs null)) h)
unfolding bypass
bypass-Bypassed h p end c [] k d = record {
  heap = h;
  result = refl;
  chain = tt;
  outside = λ a o. refl;
}
bypass-Bypassed h p end c ((q, b) ∷ xs) k d =
    let (e, r, pos, at, relink) = Chain-last h null q b xs p k in
    let t : Ptr = last_or xs q in
    let test : (t != null) ≡ true = ground arith in
    record {
      heap = write h t (some (node e end r));
      result = rw (test, set_next-ok h t (node e p r) pos at end) refl;
      chain = relink d end;
      outside = λ a o. let ne = All-last (λ s. s ≢ a) q b xs o in ground arith;
    }

-- The cells behind the node, linked to the one before it.
record Relinked (h : Heap) (prev : Ptr) (ys : Cells) (r : Option (Unit {0} × Heap)) : Type 0 where
  heap : Heap
  result : r ≡ some (tt, heap)
  chain : Chain heap prev ys null
  outside : (a : Ptr) → Apart a ys → heap a ≡ h a

-- `if (node->next != NULL) node->next->previous = node->previous;`
abbrev relink_next : Node → Cmd (Unit {0})
relink_next m = if m.next != null then set_previous m.next m.previous else pure tt

relink_next-Relinked :
    (h : Heap) (p prev : Ptr) (c : Contact) (ys : Cells)
    → Chain h p ys null
    → DistinctCells ys
    → Relinked h prev ys (relink_next (node c (first_or ys null) prev) h)
relink_next-Relinked h p prev c [] k d = record {
  heap = h;
  result = refl;
  chain = tt;
  outside = λ a o. refl;
}
relink_next-Relinked h p prev c ((u, b) ∷ ys) (l, e, k) (a, d) =
    let test : (u != null) ≡ true = ground arith in
    record {
      heap = write h u (some (node b (first_or ys null) prev));
      result = rw (test, set_previous-ok h u (node b (first_or ys null) p) l e prev) refl;
      chain = (l, ground arith, Chain-frame h u _ u ys null a k);
      outside = λ s (x, o). ground arith;
    }

-- What `detach` leaves behind: the other cells, linked, and the node by itself.
pub record Detached (h : Heap) (p : Ptr) (c : Contact) (xs ys : Cells) (r : Option (Ptr × Heap))
    : Type 0 where
  pub heap : Heap
  pub result : r ≡ some (first_or (xs ++ ys) null, heap)
  pub list : IsList heap (first_or (xs ++ ys) null) (xs ++ ys)
  pub alone : heap p ≡ some (node c null null)
  pub outside : (a : Ptr) → a ≢ p → Apart a (xs ++ ys) → heap a ≡ h a

first_or-middle : (xs ys : Cells) → first_or xs (first_or ys null) ≡ first_or (xs ++ ys) null
first_or-middle [] ys = refl
first_or-middle ((q, c) ∷ xs) ys = refl

pub detach-Detached :
    (h : Heap) (p : Ptr) (c : Contact) (xs ys : Cells)
    → Chain h null (xs ++ ((p, c) ∷ ys)) null
    → DistinctCells (xs ++ ((p, c) ∷ ys))
    → Detached h p c xs ys (detach (first_or xs p) p h)
unfolding detach
detach-Detached h p c xs ys k d =
    let (kx, (lp, e, ky)) = Chain-split h null xs ((p, c) ∷ ys) null k in
    let (dx, (py, dy), far) = DistinctCells-split xs ((p, c) ∷ ys) d in
    let (dis, ap_p) = DistinctCells-without xs p c ys d in
    let t : Ptr = last_or xs null in
    let u : Ptr = first_or ys null in
    let px = All-append_left (λ cell. cell.0 ≢ p) xs ys ap_p in
    let one = bypass-Bypassed h p u c xs kx dx in
    let e1 : one.heap p ≡ some (node c u t) = one.outside p px ∙ e in
    let flip = (Apart-flip xs ((p, c) ∷ ys) far).1 in
    let ky1 =
      Chain-same h one.heap p ys null
        (All-map (λ cell. Apart cell.0 xs) (λ cell. one.heap cell.0 ≡ h cell.0) ys
          (λ cell o. one.outside cell.0 o) flip)
        ky in
    let two = relink_next-Relinked one.heap p t c ys ky1 dy in
    let e2 : two.heap p ≡ some (node c u t) = two.outside p py ∙ e1 in
    let kx2 =
      Chain-same one.heap two.heap null xs u
        (All-map (λ cell. Apart cell.0 ((p, c) ∷ ys)) (λ cell. two.heap cell.0 ≡ one.heap cell.0) xs
          (λ cell o. two.outside cell.0 o.1) far)
        one.chain in
    let h3 : Heap = write two.heap p (some (node c null t)) in
    let e3 : h3 p ≡ some (node c null t) = ground arith in
    record {
      heap = write h3 p (some (node c null null));
      result =
          rw
            (
              load-ok h p (node c u t) lp e,
              one.result,
              load-ok one.heap p (node c u t) lp e1,
              two.result,
              set_next-ok two.heap p (node c u t) lp e2 null,
              set_previous-ok h3 p (node c null t) lp e3 null,
              first_or-middle xs ys,
            )
            refl;
      list = record {
        start = refl;
        chain = Chain-frame h3 p _ null (xs ++ ys) null ap_p (
            Chain-frame two.heap p _ null (xs ++ ys) null ap_p
              (Chain-append two.heap null xs ys null kx2 two.chain));
        distinct = dis;
      };
      alone = ground arith;
      outside = λ a ne o.
          let x =
            two.outside a (All-append_right (λ cell. cell.0 ≢ a) xs ys o)
            ∙ one.outside a (All-append_left (λ cell. cell.0 ≢ a) xs ys o) in
          let away : a ≢ p = ne in ground arith;
    }
