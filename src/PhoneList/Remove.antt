-- ===== src/PhoneList/Remove.antt =====
-- `phone_book_remove`: the first node with the id is detached and freed, and its id released.
use mathlib.Core.List.{append_assoc, append-nil}
use eltex_education.Common.{
  ℕ, zero, suc, ◌<◌, ◌≡◌, ◌≢◌, ◌⊎◌, inl, inr, ◌∙◌, refl, sym, subst, Bool, true, false, Option,
  none, some, [], ◌∷◌, ◌++◌, arith, ◌==◌, length, All, All-append, Bool-cases,
}
use eltex_education.PhoneTree.Contact.{Contact}
use eltex_education.PhoneTree.Tree.Take.{Removed}
use eltex_education.PhoneTree.Book.{IdManager, release_id}
use eltex_education.PhoneList.Heap.{Ptr, null, Node, node, Heap, write}
use eltex_education.PhoneList.Heap.Chain.{
  Cells, first_or, last_or, Chain, Apart, DistinctCells, contacts, contacts-append, Chain-frame,
  Chain-split, DistinctCells-without, load-ok, free-ok,
}
use eltex_education.PhoneList.Insert.{IsList, first_or-append}
use eltex_education.PhoneList.Detach.{detach-Detached}
use eltex_education.PhoneList.Link.{differ}
use eltex_education.PhoneList.Operations.{remove_released, remove}

-- The contacts of these cells have other ids.
abbrev pub Unlike : ℕ → Cells → Type 0
Unlike id cells = All (λ cell. cell.1.id ≢ id) cells

-- A removal that succeeds: one contact with the id is gone, its node is freed, the id is free.
pub record Taken (h : Heap) (cells : Cells) (id : ℕ) (ids : IdManager)
    (r : Option ((Bool × Ptr × IdManager) × Heap)) : Type 0 where
  pub heap : Heap
  pub head : Ptr
  pub cells' : Cells
  pub contact : Contact
  pub address : Ptr
  pub result : r ≡ some ((true, head, record ids { free_ids = id ∷ ids.free_ids }), heap)
  pub list : IsList heap head cells'
  pub removed : Removed id (contacts cells) (contacts cells') (some contact)
  pub was : (n : Node) × (h address ≡ some n) × (n.contact ≡ contact)
  pub freed : heap address ≡ none
  pub outside : (a : Ptr) → Apart a cells → heap a ≡ h a

-- A removal that fails: nothing changes, and there is no such id or no memory to release it.
abbrev pub Kept :
    Heap → Ptr → Cells → Bool → ℕ → IdManager → Option ((Bool × Ptr × IdManager) × Heap) → Type 0
Kept h head cells alloc id ids r =
    (r ≡ some ((false, head, ids), h)) × ((alloc ≡ false) ⊎ ((id ≡ 0) ⊎ Unlike id cells))

release-ok :
    (ids : IdManager) (alloc : Bool) (id : ℕ)
    → ((release_id alloc ids id ≡ (true, record ids { free_ids = id ∷ ids.free_ids })))
      ⊎ ((release_id alloc ids id ≡ (false, ids)) × ((alloc ≡ false) ⊎ (id ≡ 0)))
unfolding release_id
release-ok ids alloc id = ground arith

Apart-rest :
    (a p : Ptr) (c : Contact) (xs ys : Cells)
    → Apart a (xs ++ ((p, c) ∷ ys))
    → (a ≢ p) × Apart a (xs ++ ys)
Apart-rest a p c [] ys (n, o) = ((λ e. n (sym e)), o)
Apart-rest a p c ((q, b) ∷ xs) ys (n, o) = let (x, y) = Apart-rest a p c xs ys o in (x, (n, y))

module _ (h : Heap) (id : ℕ) (ids : IdManager) where
  taken :
      (p : Ptr) (c : Contact) (xs ys : Cells)
      → Chain h null (xs ++ ((p, c) ∷ ys)) null
      → DistinctCells (xs ++ ((p, c) ∷ ys))
      → c.id ≡ id
      → Taken h
          (xs ++ ((p, c) ∷ ys))
          id
          ids
          (remove_released (first_or xs p) p (true, record ids { free_ids = id ∷ ids.free_ids }) h)
  unfolding remove_released
  taken p c xs ys k d e =
      let (kx, (lp, ep, ky)) = Chain-split h null xs ((p, c) ∷ ys) null k in
      let (dis, apart) = DistinctCells-without xs p c ys d in
      let r = detach-Detached h p c xs ys k d in
      record {
        heap = write r.heap p none;
        head = first_or (xs ++ ys) null;
        cells' = xs ++ ys;
        contact = c;
        address = p;
        result = rw (r.result, free-ok r.heap p (node c null null) lp r.alone) refl;
        list = record {
          start = refl;
          chain = Chain-frame r.heap p none null (xs ++ ys) null apart r.list.chain;
          distinct = dis;
        };
        removed =
            (contacts xs, contacts ys, contacts-append xs ((p, c) ∷ ys), contacts-append xs ys, e);
        was = (node c (first_or ys null) (last_or xs null), ep, refl);
        freed = ground arith;
        outside = λ a o.
            let (ne, rest) = Apart-rest a p c xs ys o in
            let same = r.outside a ne rest in ground arith;
      }

  walk :
      (alloc : Bool) (fuel : ℕ) (xs ys cells : Cells)
      → xs ++ ys ≡ cells
      → Chain h null cells null
      → DistinctCells cells
      → Unlike id xs
      → length ys < fuel
      → let r = remove alloc fuel (first_or cells null) (first_or ys null) id ids h in
        Taken h cells id ids r ⊎ Kept h (first_or cells null) cells alloc id ids r
  unfolding remove
  walk alloc zero xs ys cells w k d u f = absurd (omega arith)
  walk alloc (suc fuel) xs [] cells w k d u f =
      inr (refl, inr (inr (subst (Unlike id) (sym (append-nil xs) ∙ w) u)))
  walk alloc (suc fuel) xs ((q, c) ∷ ys) cells w k d u f =
      let (kx, (lq, eq, ky)) =
        Chain-split h null xs ((q, c) ∷ ys) null (subst (λ t. Chain h null t null) (sym w) k) in
      let loaded = load-ok h q (node c (first_or ys null) (last_or xs null)) lq eq in
      elim (Bool-cases (c.id == id)) [
        | inr other ↦
            rw (differ q null (omega arith), loaded, other)
              (walk alloc fuel (xs ++ ((q, c) ∷ [])) ys cells (append_assoc xs ((q, c) ∷ []) ys ∙ w)
                k d (All-append (λ cell. cell.1.id ≢ id) xs ((q, c) ∷ []) u ((ground arith), tt))
                (omega arith))
        | inl same ↦ elim (release-ok ids alloc id) [
          | inr (e, why) ↦ inr (
            rw (differ q null (omega arith), loaded, same, e) (unfold remove_released in refl),
            elim why [ inl a ↦ inl a | inr z ↦ inr (inl z) ],
          )
          | inl e ↦ inl (
              rw (differ q null (omega arith), loaded, same, e)
                (found q c xs ys cells w k d (ground arith)))
        ]
      ]
    where
      found :
          (q : Ptr) (c : Contact) (xs ys cells : Cells)
          → xs ++ ((q, c) ∷ ys) ≡ cells
          → Chain h null cells null
          → DistinctCells cells
          → c.id ≡ id
          → Taken h cells id ids (
              remove_released
                (first_or cells null)
                q
                (true, record ids { free_ids = id ∷ ids.free_ids })
                h)
      found q c xs ys cells w k d e =
          subst
            (λ t. Taken h t id ids (
              remove_released (first_or t null) q
                (true, record ids { free_ids = id ∷ ids.free_ids }) h))
            w
            (subst
              (λ t.
                Taken h (xs ++ ((q, c) ∷ ys)) id ids
                  (remove_released t q (true, record ids { free_ids = id ∷ ids.free_ids }) h))
              (first_or-append xs q c ys null)
              (taken q c xs ys (subst (λ t. Chain h null t null) (sym w) k)
                (subst DistinctCells (sym w) d) e))

  -- When a heap holds a doubly linked list, `phone_book_remove` with fuel for its loop either
  -- takes out a node with the id, frees it, releases the id, leaves a list of the others that is
  -- linked both ways and changes no address outside, or fails and changes nothing, and then no
  -- node has the id, or the id is 0, or there is no memory.
  pub remove-Taken :
      (alloc : Bool) (fuel : ℕ) (head : Ptr) (cells : Cells)
      → IsList h head cells
      → length cells < fuel
      → let r = remove alloc fuel head head id ids h in
        Taken h cells id ids r ⊎ Kept h head cells alloc id ids r
  remove-Taken alloc fuel head cells v f =
      subst
        (λ t.
          Taken h cells id ids (remove alloc fuel t t id ids h)
          ⊎ Kept h t cells alloc id ids (remove alloc fuel t t id ids h))
        (sym v.start) (walk alloc fuel [] cells cells refl v.chain v.distinct tt f)
