-- ===== src/PhoneList/Heap.antt =====
-- `phone_book_node_t` at addresses. A command fails, with `none`, where the C code would read through
-- NULL or through a pointer that was freed.
pub mod Chain
use eltex_education.Common.{ℕ, Bool, true, false, Option, none, some, ◌==◌, if◌then◌else◌}
use eltex_education.PhoneTree.Contact.{Contact}

abbrev pub Ptr : Type 0
Ptr = ℕ

abbrev pub null : Ptr
null = 0

pub record Node : Type 0 where
  pub contact : Contact
  pub next : Ptr
  pub previous : Ptr

abbrev pub node : Contact → Ptr → Ptr → Node
node c next previous = record { contact = c; next = next; previous = previous }

abbrev pub Heap : Type 0
Heap = Ptr → Option Node

abbrev pub write : Heap → Ptr → Option Node → Heap
write h p n a = if a == p then n else h a

abbrev pub Cmd : Type 0 → Type 0
Cmd A = Heap → Option (A × Heap)

abbrev pub pure : {A : Type 0} → A → Cmd A
pure a h = some (a, h)

module _ {A B : Type 0} where
  abbrev pub run_next : Option (A × Heap) → (A → Cmd B) → Option (B × Heap)
  run_next none k = none
  run_next (some (a, h)) k = k a h

  infixl 5 ◌>>=◌
  abbrev pub ◌>>=◌ : Cmd A → (A → Cmd B) → Cmd B
  m >>= k = λ h. run_next (m h) k

infixl 5 ◌>>◌
abbrev pub ◌>>◌ : {B : Type 0} → Cmd (Unit {0}) → Cmd B → Cmd B
m >> k = m >>= λ _. k

abbrev pub found : Option Node → Heap → Option (Node × Heap)
found none h = none
found (some n) h = some (n, h)

-- `*p`
unfoldable pub load : Ptr → Cmd Node
load p h = if p == null then none else found (h p) h

abbrev pub store : Ptr → Node → Cmd (Unit {0})
store p n h = some (tt, write h p (some n))

-- `p->next = q`, `p->previous = q`, and a change of the contact of `p`.
unfoldable pub set_next : Ptr → Ptr → Cmd (Unit {0})
unfolding load
set_next p q = load p >>= λ n. store p (node n.contact q n.previous)

unfoldable pub set_previous : Ptr → Ptr → Cmd (Unit {0})
unfolding load
set_previous p q = load p >>= λ n. store p (node n.contact n.next q)

unfoldable pub set_contact : Ptr → Contact → Cmd (Unit {0})
unfolding load
set_contact p c = load p >>= λ n. store p (node c n.next n.previous)

unfoldable pub free : Ptr → Cmd (Unit {0})
unfolding load
free p = load p >>= λ n. λ h. some (tt, write h p none)
