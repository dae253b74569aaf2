-- ===== src/PhoneList/Edit/Search.antt =====
-- The searches of the doubly linked phone book.
use mathlib.Core.List.{append_assoc, append-nil}
use eltex_education.Common.{
  ℕ, zero, suc, ◌<◌, ◌≡◌, ◌≢◌, ◌⊎◌, inl, inr, ◌∙◌, refl, sym, ap, Bool, true, none, some, List, [],
  ◌∷◌, ◌++◌, arith, if◌then◌else◌, length, Bool-cases,
}
use eltex_education.Common.Memory.{Pointer}
use eltex_education.Common.CString.{CString}
use eltex_education.PhoneTree.Contact.{Contact}
use eltex_education.PhoneTree.Tree.Search.{keep, wanted}
use eltex_education.PhoneList.Heap.{Ptr, null, node, Heap}
use eltex_education.PhoneList.Heap.Chain.{Cells, first_or, Chain, contacts, load-ok}
use eltex_education.PhoneList.Insert.{IsList}
use eltex_education.PhoneList.Link.{differ}
use eltex_education.PhoneList.Edit.{find_loop, find}

-- The cells whose contacts pass a test.
abbrev pub picked : (Contact → Bool) → Cells → Cells
picked p [] = []
picked p ((q, c) ∷ cells) = if p c then (q, c) ∷ picked p cells else picked p cells

abbrev pub addresses : Cells → List Ptr
addresses [] = []
addresses ((q, c) ∷ cells) = q ∷ addresses cells

contacts-picked :
    (p : Contact → Bool) (cells : Cells) → contacts (picked p cells) ≡ keep p (contacts cells)
contacts-picked p [] = refl
contacts-picked p ((q, c) ∷ cells) = elim (Bool-cases (p c)) [
  | inl e ↦ rw e (ap (λ l. c ∷ l) (contacts-picked p cells))
  | inr e ↦ rw e (contacts-picked p cells)
]

find-loop :
    (fuel : ℕ) (alloc : ℕ → Bool) (head : Ptr) (name last_name : Pointer CString) (h : Heap)
    → (name ≢ none) ⊎ (last_name ≢ none)
    → find fuel alloc head name last_name h ≡ find_loop fuel alloc head name last_name [] h
unfolding find
find-loop fuel alloc head (some n) last_name h w = refl
find-loop fuel alloc head none (some n) h w = refl
find-loop fuel alloc head none none h (inl w) = absurd (w refl)
find-loop fuel alloc head none none h (inr w) = absurd (w refl)

module _ (alloc : ℕ → Bool) (name last_name : Pointer CString) (h : Heap)
    (enough : (n : ℕ) → alloc n ≡ true) where
  find_loop-picked :
      (fuel : ℕ) (prev : Ptr) (cells : Cells) (items : List Ptr)
      → Chain h prev cells null
      → length cells < fuel
      → find_loop fuel alloc (first_or cells null) name last_name items h
        ≡ some (items ++ addresses (picked (wanted name last_name) cells), h)
  unfolding find_loop
  find_loop-picked zero prev cells items k l = absurd (omega arith)
  find_loop-picked (suc fuel) prev [] items k l = ap (λ t. some (t, h)) (sym (append-nil items))
  find_loop-picked (suc fuel) prev ((q, c) ∷ cells) items (p, e, k) l =
      let loaded = load-ok h q (node c (first_or cells null) prev) p e in
      let there = differ q null (omega arith) in
      elim (Bool-cases (wanted name last_name c)) [
        | inl w ↦
            rw (there, loaded, w, enough (length items))
              (find_loop-picked fuel q cells (items ++ (q ∷ [])) k (omega arith)
                ∙ ap (λ t. some (t, h))
                    (append_assoc items (q ∷ [])
                      (addresses (picked (wanted name last_name) cells))))
        | inr w ↦ rw (there, loaded, w) (find_loop-picked fuel q cells items k (omega arith))
      ]

  -- While `realloc` succeeds and a pattern is given, `phone_book_find` on a doubly linked list,
  -- with fuel for its loop, returns the addresses of exactly the nodes whose contacts match, in
  -- order, and these are the contacts that the search of the tree book keeps.
  pub find-picked :
      (fuel : ℕ) (head : Ptr) (cells : Cells)
      → IsList h head cells
      → length cells < fuel
      → ((name ≢ none) ⊎ (last_name ≢ none))
      → (find fuel alloc head name last_name h
          ≡ some (addresses (picked (wanted name last_name) cells), h))
        × (contacts (picked (wanted name last_name) cells)
            ≡ keep (wanted name last_name) (contacts cells))
  find-picked fuel head cells v l w = (
    find-loop fuel alloc head name last_name h w
        ∙ ap (λ t. find_loop fuel alloc t name last_name [] h) v.start
        ∙ find_loop-picked fuel null cells [] v.chain l,
    contacts-picked (wanted name last_name) cells,
  )
