-- ===== src/PhoneTree/Book/Fresh.antt =====
-- An id that `take_id` gives out: not in the book, issued, and not free any more.
use native.Mathlib.Decide.{ℕ_discrete}
use eltex_education.Common.{
  ℕ, ◌+◌, ◌%◌, ◌^◌, ◌<◌, ◌≡◌, refl, sym, ◌≢◌, ◌⊎◌, inl, inr, none, some, List, [], ◌∷◌, ◌++◌, arith,
  All, All-append, All-map, All-append_left, All-append_right,
}
use eltex_education.PhoneTree.Contact.{Contact}
use eltex_education.PhoneTree.Tree.{Tree}
use eltex_education.PhoneTree.Tree.View.{in_order}
use eltex_education.PhoneTree.Tree.Take.{Removed}
use eltex_education.PhoneTree.Book.{IdManager, Book, take_id}

abbrev pub DistinctIds : List Contact → Type 0
DistinctIds [] = Unit
DistinctIds (c ∷ cs) = All (λ d. d.id ≢ c.id) cs × DistinctIds cs

abbrev pub Distinct : List ℕ → Type 0
Distinct [] = Unit
Distinct (x ∷ xs) = All (λ y. y ≢ x) xs × Distinct xs

-- The manager has handed out this id.
abbrev pub Issued : ℕ → ℕ → Type 0
Issued next id = (0 < id) × ((next ≡ 0) ⊎ (id < next))

-- No contact of the list has this id.
abbrev pub Absent : List Contact → ℕ → Type 0
Absent cs id = All (λ c. c.id ≢ id) cs

pub record IsValid (b : Book) : Type 0 where
  pub distinct : DistinctIds (in_order b.head)
  pub issued : All (λ c. Issued b.ids.next_id c.id) (in_order b.head)
  pub free_distinct : Distinct b.ids.free_ids
  pub free_issued : All (Issued b.ids.next_id) b.ids.free_ids
  pub apart : All (Absent (in_order b.head)) b.ids.free_ids
  pub in_range : b.ids.next_id < 2 ^ 32

pub All-without :
    (P : Contact → Type 0) (p q : List Contact) (d : Contact)
    → All P (p ++ (d ∷ q))
    → P d × All P (p ++ q)
All-without P p q d a =
    let r = All-append_right P p (d ∷ q) a in
    (r.0, All-append P p q (All-append_left P p (d ∷ q) a) r.1)

pub All-with :
    (P : Contact → Type 0) (p q : List Contact) (d : Contact)
    → P d
    → All P (p ++ q)
    → All P (p ++ (d ∷ q))
All-with P p q d h a =
    All-append P p (d ∷ q) (All-append_left P p q a) (h, All-append_right P p q a)

pub DistinctIds-without :
    (p q : List Contact) (d : Contact)
    → DistinctIds (p ++ (d ∷ q))
    → DistinctIds (p ++ q) × Absent (p ++ q) d.id
DistinctIds-without [] q d (a, s) = (s, a)
DistinctIds-without (x ∷ p) q d (a, s) =
    let (t, b) = DistinctIds-without p q d s in
    let w = All-without (λ c. c.id ≢ x.id) p q d a in ((w.1, t), ((λ e. w.0 (sym e)), b))

pub DistinctIds-with :
    (p q : List Contact) (d : Contact)
    → DistinctIds (p ++ q)
    → Absent (p ++ q) d.id
    → DistinctIds (p ++ (d ∷ q))
DistinctIds-with [] q d s a = (a, s)
DistinctIds-with (x ∷ p) q d (b, s) (ne, a) =
    (All-with (λ c. c.id ≢ x.id) p q d (λ e. ne (sym e)) b, DistinctIds-with p q d s a)

-- One contact with a fresh id more.
with_contact :
    (t t' : Tree) (c : Contact) (next : ℕ)
    → Removed c.id (in_order t') (in_order t) (some c)
    → DistinctIds (in_order t)
    → All (λ d. Issued next d.id) (in_order t)
    → Absent (in_order t) c.id
    → Issued next c.id
    → DistinctIds (in_order t') × All (λ d. Issued next d.id) (in_order t')
with_contact t t' c next (p, q, e, f, g) s i a ic = rw e (
  DistinctIds-with p q c (rw f at s) (rw f at a),
  All-with (λ d. Issued next d.id) p q c ic (rw f at i),
)

-- What an id that was just taken satisfies: it is not in the book, not free any more, and issued.
pub record IsFresh (cs : List Contact) (next id : ℕ) (m : IdManager) : Type 0 where
  pub absent : Absent cs id
  pub issued : Issued m.next_id id
  pub grows : (n : ℕ) → Issued next n → Issued m.next_id n
  pub free_distinct : Distinct m.free_ids
  pub free_issued : All (Issued m.next_id) m.free_ids
  pub apart : All (Absent cs) m.free_ids
  pub taken : All (λ f. f ≢ id) m.free_ids
  pub in_range : m.next_id < 2 ^ 32

next_Issued :
    (next n : ℕ) → next < 2 ^ 32 → next ≢ 0 → Issued next n → Issued ((next + 1) % 2 ^ 32) n
next_Issued next n r ne (p, inl z) = absurd (ne z)
next_Issued next n r ne (p, inr l) = elim (ℕ_discrete ((next + 1) % 2 ^ 32) 0) [
  | yes e ↦ (p, inl e)
  | no q ↦ (p, inr (omega arith))
]

IsFresh-next :
    (cs : List Contact) (next : ℕ)
    → next < 2 ^ 32
    → next ≢ 0
    → All (λ c. Issued next c.id) cs
    → IsFresh cs next next (record { next_id = (next + 1) % 2 ^ 32; free_ids = [] })
IsFresh-next cs next r ne j = record {
  absent = All-map (λ c. Issued next c.id) (λ c. c.id ≢ next) cs (λ c k. omega arith) j;
  issued = elim (ℕ_discrete ((next + 1) % 2 ^ 32) 0) [
    | yes e ↦ (omega arith, inl e)
    | no q ↦ (omega arith, inr (omega arith))
  ];
  grows = λ n k. next_Issued next n r ne k;
  free_distinct = tt;
  free_issued = tt;
  apart = tt;
  taken = tt;
  in_range = omega arith;
}

IsFresh-free :
    (cs : List Contact) (next id : ℕ) (free : List ℕ)
    → next < 2 ^ 32
    → Distinct (id ∷ free)
    → All (Issued next) (id ∷ free)
    → All (Absent cs) (id ∷ free)
    → IsFresh cs next id (record { next_id = next; free_ids = free })
IsFresh-free cs next id free r (x, d) (i, is) (a, as') = record {
  absent = a;
  issued = i;
  grows = λ n k. k;
  free_distinct = d;
  free_issued = is;
  apart = as';
  taken = x;
  in_range = r;
}

abbrev Taken : List Contact → IdManager → Type 0
Taken cs m =
    (take_id m ≡ none)
    ⊎ ((id : ℕ) × (ids : IdManager) × (take_id m ≡ some (id, ids)) × IsFresh cs m.next_id id ids)

pub take_id-Taken :
    (cs : List Contact) (next : ℕ) (free : List ℕ)
    → All (λ c. Issued next c.id) cs
    → Distinct free
    → All (Issued next) free
    → All (Absent cs) free
    → next < 2 ^ 32
    → Taken cs (record { next_id = next; free_ids = free })
unfolding take_id
take_id-Taken cs next [] j d i a r = elim (ℕ_discrete next 0) [
  | yes z ↦ inl (ground arith)
  | no z ↦ inr (
    next,
    record { next_id = (next + 1) % 2 ^ 32; free_ids = [] },
    ground arith,
    IsFresh-next cs next r z j,
  )
]
take_id-Taken cs next (id ∷ free) j d i a r =
    inr (id, record { next_id = next; free_ids = free }, refl, IsFresh-free cs next id free r d i a)
