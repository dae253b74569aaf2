-- ===== src/PhoneList/Heap/Chain.antt =====
-- Doubly linked nodes in a heap, as the list of their addresses and contacts.
use eltex_education.Common.{
  ◌<◌, ◌≡◌, ◌≢◌, ◌∙◌, refl, sym, ap, Option, none, some, List, [], ◌∷◌, ◌++◌, arith, All,
  All-append, All-append_left, All-append_right, All-map, All-both,
}
use eltex_education.PhoneTree.Contact.{Contact}
use eltex_education.PhoneList.Heap.{
  Ptr, Node, node, Heap, write, load, set_next, set_previous, set_contact, free,
}

abbrev pub Cells : Type 0
Cells = List (Ptr × Contact)

abbrev pub first_or : Cells → Ptr → Ptr
first_or [] p = p
first_or ((q, c) ∷ cells) p = q

abbrev pub last_or : Cells → Ptr → Ptr
last_or [] p = p
last_or ((q, c) ∷ cells) p = last_or cells q

-- The nodes of the cells, linked both ways, between `prev` and `end`.
abbrev pub Chain : Heap → Ptr → Cells → Ptr → Type 0
Chain h prev [] end = Unit {0}
Chain h prev ((q, c) ∷ cells) end =
    (0 < q) × (h q ≡ some (node c (first_or cells end) prev)) × Chain h q cells end

abbrev pub Apart : Ptr → Cells → Type 0
Apart p cells = All (λ cell. cell.0 ≢ p) cells

abbrev pub DistinctCells : Cells → Type 0
DistinctCells [] = Unit {0}
DistinctCells ((q, c) ∷ cells) = Apart q cells × DistinctCells cells

abbrev pub contacts : Cells → List Contact
contacts [] = []
contacts ((q, c) ∷ cells) = c ∷ contacts cells

pub contacts-append : (xs ys : Cells) → contacts (xs ++ ys) ≡ contacts xs ++ contacts ys
contacts-append [] ys = refl
contacts-append ((q, c) ∷ xs) ys = ap (λ l. c ∷ l) (contacts-append xs ys)

-- A write to an address outside the cells leaves them.
pub Chain-frame :
    (h : Heap) (p : Ptr) (n : Option Node) (prev : Ptr) (cells : Cells) (end : Ptr)
    → Apart p cells
    → Chain h prev cells end
    → Chain (write h p n) prev cells end
Chain-frame h p n prev [] end a k = tt
Chain-frame h p n prev ((q, c) ∷ cells) end (ne, a) (l, e, k) =
    (l, ground arith, Chain-frame h p n q cells end a k)

pub Chain-append :
    (h : Heap) (prev : Ptr) (xs ys : Cells) (end : Ptr)
    → Chain h prev xs (first_or ys end)
    → Chain h (last_or xs prev) ys end
    → Chain h prev (xs ++ ys) end
Chain-append h prev [] ys end k m = m
Chain-append h prev ((q, c) ∷ []) ys end (l, e, k) m = (l, e, m)
Chain-append h prev ((q, c) ∷ (r, d) ∷ xs) ys end (l, e, k) m =
    (l, e, Chain-append h q ((r, d) ∷ xs) ys end k m)

pub Chain-split :
    (h : Heap) (prev : Ptr) (xs ys : Cells) (end : Ptr)
    → Chain h prev (xs ++ ys) end
    → Chain h prev xs (first_or ys end) × Chain h (last_or xs prev) ys end
Chain-split h prev [] ys end k = (tt, k)
Chain-split h prev ((q, c) ∷ []) ys end (l, e, k) = ((l, e, tt), k)
Chain-split h prev ((q, c) ∷ (r, d) ∷ xs) ys end (l, e, k) =
    let (a, b) = Chain-split h q ((r, d) ∷ xs) ys end k in ((l, e, a), b)

pub DistinctCells-split :
    (xs ys : Cells)
    → DistinctCells (xs ++ ys)
    → DistinctCells xs × DistinctCells ys × All (λ cell. Apart cell.0 ys) xs
DistinctCells-split [] ys d = (tt, d, tt)
DistinctCells-split ((q, c) ∷ xs) ys (a, d) =
    let (x, y, z) = DistinctCells-split xs ys d in
    (
      (All-append_left (λ cell. cell.0 ≢ q) xs ys a, x),
      y,
      (All-append_right (λ cell. cell.0 ≢ q) xs ys a, z),
    )

-- What holds of every address holds of the last.
pub All-last :
    (P : Ptr → Type 0) (q : Ptr) (c : Contact) (xs : Cells)
    → All (λ cell. P cell.0) ((q, c) ∷ xs)
    → P (last_or xs q)
All-last P q c [] (p, a) = p
All-last P q c ((r, d) ∷ xs) (p, a) = All-last P r d xs a

-- The last node points to the end, and can be linked to another one.
pub Chain-last :
    (h : Heap) (prev q : Ptr) (c : Contact) (xs : Cells) (end : Ptr)
    → Chain h prev ((q, c) ∷ xs) end
    → (d : Contact) × (r : Ptr) × (0 < last_or xs q)
      × (h (last_or xs q) ≡ some (node d end r))
      × (DistinctCells ((q, c) ∷ xs)
          → (m : Ptr) → Chain (write h (last_or xs q) (some (node d m r))) prev ((q, c) ∷ xs) m)
Chain-last h prev q c [] end (l, e, k) = (c, prev, l, e, λ a m. (l, ground arith, tt))
Chain-last h prev q c ((s, d) ∷ xs) end (l, e, k) =
    let (d', r, p, f, g) = Chain-last h q s d xs end k in
    (d', r, p, f, λ a m. (l, (let ne = All-last (λ t. t ≢ q) s d xs a.0 in ground arith), g a.1 m))

pub load-ok : (h : Heap) (p : Ptr) (n : Node) → 0 < p → h p ≡ some n → load p h ≡ some (n, h)
unfolding load
load-ok h p n l e = ground arith

pub set_next-ok :
    (h : Heap) (p : Ptr) (n : Node)
    → 0 < p
    → h p ≡ some n
    → (q : Ptr) → set_next p q h ≡ some (tt, write h p (some (node n.contact q n.previous)))
unfolding set_next
set_next-ok h p n l e q = rw (load-ok h p n l e) refl

pub set_previous-ok :
    (h : Heap) (p : Ptr) (n : Node)
    → 0 < p
    → h p ≡ some n
    → (q : Ptr) → set_previous p q h ≡ some (tt, write h p (some (node n.contact n.next q)))
unfolding set_previous
set_previous-ok h p n l e q = rw (load-ok h p n l e) refl

pub set_contact-ok :
    (h : Heap) (p : Ptr) (n : Node)
    → 0 < p
    → h p ≡ some n
    → (c : Contact) → set_contact p c h ≡ some (tt, write h p (some (node c n.next n.previous)))
unfolding set_contact
set_contact-ok h p n l e c = rw (load-ok h p n l e) refl

pub free-ok :
    (h : Heap) (p : Ptr) (n : Node) → 0 < p → h p ≡ some n → free p h ≡ some (tt, write h p none)
unfolding free
free-ok h p n l e = rw (load-ok h p n l e) refl

-- A heap that agrees on the addresses of the cells.
pub Chain-same :
    (h g : Heap) (prev : Ptr) (cells : Cells) (end : Ptr)
    → All (λ cell. g cell.0 ≡ h cell.0) cells
    → Chain h prev cells end
    → Chain g prev cells end
Chain-same h g prev [] end a k = tt
Chain-same h g prev ((q, c) ∷ cells) end (e, a) (l, f, k) =
    (l, e ∙ f, Chain-same h g q cells end a k)

Apart-nil : (cells : Cells) → All (λ cell. Apart cell.0 []) cells
Apart-nil [] = tt
Apart-nil (x ∷ xs) = (tt, Apart-nil xs)

pub Apart-flip :
    (xs ys : Cells) → All (λ cell. Apart cell.0 ys) xs → All (λ cell. Apart cell.0 xs) ys
Apart-flip [] ys a = Apart-nil ys
Apart-flip ((q, c) ∷ xs) ys (x, a) =
    All-map (λ cell. (cell.0 ≢ q) × Apart cell.0 xs) (λ cell. Apart cell.0 ((q, c) ∷ xs)) ys
      (λ cell (n, o). ((λ e. n (sym e)), o))
      (All-both (λ cell. cell.0 ≢ q) (λ cell. Apart cell.0 xs) ys x (Apart-flip xs ys a))

pub DistinctCells-without :
    (xs : Cells) (p : Ptr) (c : Contact) (ys : Cells)
    → DistinctCells (xs ++ ((p, c) ∷ ys))
    → DistinctCells (xs ++ ys) × Apart p (xs ++ ys)
DistinctCells-without [] p c ys (a, d) = (d, a)
DistinctCells-without ((q, b) ∷ xs) p c ys (x, d) =
    let (e, a) = DistinctCells-without xs p c ys d in
    let right = All-append_right (λ cell. cell.0 ≢ q) xs ((p, c) ∷ ys) x in
    (
      (
        All-append (λ cell. cell.0 ≢ q) xs ys
            (All-append_left (λ cell. cell.0 ≢ q) xs ((p, c) ∷ ys) x) right.1,
        e,
      ),
      ((λ z. right.0 (sym z)), a),
    )
