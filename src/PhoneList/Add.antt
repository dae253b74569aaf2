-- ===== src/PhoneList/Add.antt =====
-- `phone_book_add`: the list with the new node in its place, linked both ways.
use eltex_education.Common.{
  ℕ, zero, suc, ◌<◌, ◌≡◌, refl, ap, some, [], ◌∷◌, ◌++◌, arith, if◌then◌else◌, length, Bool-cases,
  inl, inr,
}
use eltex_education.Common.CString.{CString, follows}
use eltex_education.PhoneTree.Contact.{Contact}
use eltex_education.PhoneTree.Tree.Add.{insert}
use eltex_education.PhoneList.Heap.{Ptr, null, node, Heap}
use eltex_education.PhoneList.Heap.Chain.{Cells, first_or, last_or, Chain, contacts, load-ok}
use eltex_education.PhoneList.Operations.{find_place, find_tail}

-- The cells before the place of a last name, and those from it on.
abbrev pub before : CString → Cells → Cells
before name [] = []
before name ((q, c) ∷ cells) = if follows c.last_name name then [] else (q, c) ∷ before name cells

abbrev pub behind : CString → Cells → Cells
behind name [] = []
behind name ((q, c) ∷ cells) =
    if follows c.last_name name then (q, c) ∷ cells else behind name cells

pub before-behind :
    (name : CString) (cells : Cells) → before name cells ++ behind name cells ≡ cells
before-behind name [] = refl
before-behind name ((q, c) ∷ cells) = elim (Bool-cases (follows c.last_name name)) [
  | inl e ↦ rw e refl
  | inr e ↦ rw e (ap (λ l. (q, c) ∷ l) (before-behind name cells))
]

pub contacts-before :
    (c : Contact) (cells : Cells)
    → contacts (before c.last_name cells) ++ (c ∷ contacts (behind c.last_name cells))
      ≡ insert c (contacts cells)
contacts-before c [] = refl
contacts-before c ((q, d) ∷ cells) = elim (Bool-cases (follows d.last_name c.last_name)) [
  | inl e ↦ rw e refl
  | inr e ↦ rw e (ap (λ l. d ∷ l) (contacts-before c cells))
]

pub find_place-behind :
    (fuel : ℕ) (name : CString) (h : Heap) (prev : Ptr) (cells : Cells)
    → Chain h prev cells null
    → length cells < fuel
    → find_place fuel name (first_or cells null) h ≡ some (first_or (behind name cells) null, h)
unfolding find_place
find_place-behind zero name h prev cells k l = absurd (omega arith)
find_place-behind (suc fuel) name h prev [] k l = refl
find_place-behind (suc fuel) name h prev ((q, c) ∷ cells) (p, e, k) l =
    let ih = find_place-behind fuel name h q cells k (omega arith) in
    let loaded = load-ok h q (node c (first_or cells null) prev) p e in
    elim (Bool-cases (follows c.last_name name)) [
      | inl f ↦ ground (arith, loaded)
      | inr f ↦ ground (arith, loaded, ih)
    ]

pub find_tail-last :
    (fuel : ℕ) (h : Heap) (prev q : Ptr) (c : Contact) (cells : Cells)
    → Chain h prev ((q, c) ∷ cells) null
    → length cells < fuel
    → find_tail fuel q h ≡ some (last_or cells q, h)
unfolding find_tail
find_tail-last zero h prev q c cells k l = absurd (omega arith)
find_tail-last (suc fuel) h prev q c [] (p, e, k) l = rw (load-ok h q (node c null prev) p e) refl
find_tail-last (suc fuel) h prev q c ((r, d) ∷ cells) (p, e, k) l =
    let ih = find_tail-last fuel h q r d cells k (omega arith) in
    let loaded = load-ok h q (node c r prev) p e in let pos = k.0 in ground (arith, loaded, ih)
