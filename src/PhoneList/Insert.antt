-- ===== src/PhoneList/Insert.antt =====
-- `phone_book_add` as an insertion into the list of contacts.
use eltex_education.Common.{
  ℕ, suc, ◌<◌, ◌≡◌, ◌≢◌, ◌∙◌, refl, sym, ap, subst, Bool, true, Option, some, [], ◌∷◌, ◌++◌, arith,
  length, length-append, All-append, All-append_left, All-append_right,
}
use eltex_education.PhoneTree.Contact.{Contact}
use eltex_education.PhoneTree.Tree.Add.{insert}
use eltex_education.PhoneList.Heap.{Ptr, null, Node, node, Heap, write, set_next, set_previous}
use eltex_education.PhoneList.Heap.Chain.{
  last_or, Chain-split, Cells, first_or, Chain, Apart, DistinctCells, contacts, contacts-append,
  Chain-frame, load-ok, set_next-ok, set_previous-ok,
}
use eltex_education.PhoneList.Add.{
  before, behind, before-behind, contacts-before, find_place-behind,
}
use eltex_education.PhoneList.Link.{Linked, link_at-Linked, differ}
use eltex_education.PhoneList.Operations.{link_at, add}

-- A phone book: its nodes, linked both ways from `head` to NULL, at distinct addresses.
pub record IsList (h : Heap) (head : Ptr) (cells : Cells) : Type 0 where
  pub start : head ≡ first_or cells null
  pub chain : Chain h null cells null
  pub distinct : DistinctCells cells

cons_ne_nil : (x : Ptr × Contact) (xs : Cells) → (x ∷ xs) ≢ []
cons_ne_nil x xs e = cc

pub first_or-append :
    (xs : Cells) (p : Ptr) (c : Contact) (ys : Cells) (end : Ptr)
    → first_or xs p ≡ first_or (xs ++ ((p, c) ∷ ys)) end
first_or-append [] p c ys end = refl
first_or-append ((q, d) ∷ xs) p c ys end = refl

DistinctCells-insert :
    (xs : Cells) (p : Ptr) (c : Contact) (ys : Cells)
    → DistinctCells (xs ++ ys)
    → Apart p (xs ++ ys)
    → DistinctCells (xs ++ ((p, c) ∷ ys))
DistinctCells-insert [] p c ys d a = (a, d)
DistinctCells-insert ((q, b) ∷ xs) p c ys (x, d) (ne, a) = (
  All-append (λ cell. cell.0 ≢ q) xs ((p, c) ∷ ys) (All-append_left (λ cell. cell.0 ≢ q) xs ys x)
      ((λ e. ne (sym e)), All-append_right (λ cell. cell.0 ≢ q) xs ys x),
  DistinctCells-insert xs p c ys d a,
)

Apart-insert :
    (s p : Ptr) (c : Contact) (xs ys : Cells)
    → s ≢ p
    → Apart s (xs ++ ys)
    → Apart s (xs ++ ((p, c) ∷ ys))
Apart-insert s p c xs ys ne o =
    All-append (λ cell. cell.0 ≢ s) xs ((p, c) ∷ ys) (All-append_left (λ cell. cell.0 ≢ s) xs ys o)
      ((λ e. ne (sym e)), All-append_right (λ cell. cell.0 ≢ s) xs ys o)

-- What `add` leaves behind: the cells with the new one in its place.
pub record Added (h : Heap) (p : Ptr) (c : Contact) (cells : Cells)
    (r : Option ((Bool × Ptr) × Heap)) : Type 0 where
  pub heap : Heap
  pub head : Ptr
  pub cells' : Cells
  pub result : r ≡ some ((true, head), heap)
  pub list : IsList heap head cells'
  pub inserted : contacts cells' ≡ insert c (contacts cells)
  pub placed : (next : Ptr) × (previous : Ptr) × (heap p ≡ some (node c next previous))
  pub outside : (a : Ptr) → a ≢ p → Apart a cells → heap a ≡ h a

module _ (fuel : ℕ) (h : Heap) (p : Ptr) (n : Node) (lp : 0 < p) (new : h p ≡ some n) where
  -- The heap after the two links of the new node are cleared.
  abbrev cleared : Heap
  cleared =
      write (write h p (some (node n.contact null n.previous))) p (some (node n.contact null null))

  cleared-new : cleared p ≡ some (node n.contact null null)
  cleared-new = ground arith

  clear-next : set_next p null h ≡ some (tt, write h p (some (node n.contact null n.previous)))
  clear-next = set_next-ok h p n lp new null

  clear-previous :
      set_previous p null (write h p (some (node n.contact null n.previous))) ≡ some (tt, cleared)
  clear-previous =
      set_previous-ok (write h p (some (node n.contact null n.previous))) p
        (node n.contact null n.previous) lp (ground arith) null

  add-empty : Added h p n.contact [] (add fuel null p h)
  unfolding add
  add-empty = record {
    heap = cleared;
    head = p;
    cells' = (p, n.contact) ∷ [];
    result = rw (differ p null (omega arith), clear-next, clear-previous) refl;
    list = record { start = refl; chain = (lp, cleared-new, tt); distinct = (tt, tt) };
    inserted = refl;
    placed = (null, null, cleared-new);
    outside = λ a ne o. ground arith;
  }

  add-cons :
      (q : Ptr) (d : Contact) (cells : Cells)
      → Chain h null ((q, d) ∷ cells) null
      → DistinctCells ((q, d) ∷ cells)
      → Apart p ((q, d) ∷ cells)
      → suc (length cells) < fuel
      → Added h p n.contact ((q, d) ∷ cells) (add fuel q p h)
  unfolding add
  add-cons q d cells k dis a f =
      let name = n.contact.last_name in
      let all : Cells = (q, d) ∷ cells in
      let xs = before name all in
      let ys = behind name all in
      let e : xs ++ ys ≡ all = before-behind name all in
      let k' =
        Chain-frame (write h p (some (node n.contact null n.previous))) p _ null all null a
          (Chain-frame h p _ null all null a k) in
      let linked : Linked cleared p n.contact xs ys (link_at fuel q p (first_or ys null) cleared) =
        subst
          (λ t.
            Linked cleared p n.contact xs ys
              (link_at fuel (first_or t null) p (first_or ys null) cleared))
          e
          (link_at-Linked fuel cleared p n.contact lp cleared-new xs ys
            (subst (λ t. Chain cleared null t null) (sym e) k') (subst (Apart p) (sym e) a)
            (subst DistinctCells (sym e) dis) (λ z. cons_ne_nil (q, d) cells (sym e ∙ z))
            (omega (arith, length-append xs ys, ap length e))) in
      record {
        heap = linked.heap;
        head = first_or xs p;
        cells' = xs ++ ((p, n.contact) ∷ ys);
        result =
            rw
              (
                differ p null (omega arith),
                clear-next,
                clear-previous,
                differ q null (let l = k.0 in omega arith),
                load-ok cleared p (node n.contact null null) lp cleared-new,
                find_place-behind fuel name cleared null all k' f,
                linked.result,
              )
              refl;
        list = record {
          start = first_or-append xs p n.contact ys null;
          chain = linked.chain;
          distinct =
              DistinctCells-insert xs p n.contact ys (subst DistinctCells (sym e) dis)
                (subst (Apart p) (sym e) a);
        };
        inserted = contacts-append xs ((p, n.contact) ∷ ys) ∙ contacts-before n.contact all;
        placed =
            let (kx, (lq, there, ky)) =
              Chain-split linked.heap null xs ((p, n.contact) ∷ ys) null linked.chain in
            (first_or ys null, last_or xs null, there);
        outside = λ s ne o.
            linked.outside s (Apart-insert s p n.contact xs ys ne (subst (Apart s) (sym e) o))
            ∙ (let away : s ≢ p = ne in ground arith);
      }

-- When a heap holds a doubly linked list, and a node lies at an address outside it,
-- `phone_book_add` with fuel for its loops puts the node behind all whose last name is not greater
-- and before the rest, leaves a list that is linked both ways, and changes no address outside the
-- list and the node.
pub add-Added :
    (fuel : ℕ) (h : Heap) (head p : Ptr) (n : Node) (cells : Cells)
    → IsList h head cells
    → 0 < p
    → h p ≡ some n
    → Apart p cells
    → length cells < fuel
    → Added h p n.contact cells (add fuel head p h)
add-Added fuel h head p n [] v lp e a f =
    subst (λ t. Added h p n.contact [] (add fuel t p h)) (sym v.start) (add-empty fuel h p n lp e)
add-Added fuel h head p n ((q, d) ∷ cells) v lp e a f =
    subst (λ t. Added h p n.contact ((q, d) ∷ cells) (add fuel t p h)) (sym v.start)
      (add-cons fuel h p n lp e q d cells v.chain v.distinct a f)
