-- ===== src/Common/Memory.antt =====
-- Byte memory behind a C pointer: what stands at each offset. A pointer that may be NULL is an
-- `Option`. A write changes the bytes that it names and no other; a function's bounds are
-- theorems about the offsets that it reads and writes.
pub mod Words
use Prim.Native.Nat.{ℕ, zero, suc, ◌+◌, ◌-◌, ◌≤◌, ◌<◌}
use mathlib.Core.Path.{◌≡◌, refl, subst, ap, ◌∙◌}
use mathlib.Core.List.{List, [], ◌∷◌, ◌++◌}
use eltex_education.Common.Lists.{length}
use mathlib.Core.Bool.{Bool, true, false, ◌&&◌}
use mathlib.Core.Option.{Option}
use native.Mathlib.Omega.{arith}
use native.Mathlib.Decide.{ℕ_discrete}
use eltex_education.Common.Tests.{ltb, leb, ◌==◌, if◌then◌else◌}

abbrev pub Memory : Type 0
Memory = ℕ → ℕ

abbrev pub Pointer : Type 0 → Type 0
Pointer A = Option A

-- `b[o] = v`
abbrev pub store : Memory → ℕ → ℕ → Memory
store b o v i = if i == o then v else b i

-- `p + o`
abbrev pub offset : Memory → ℕ → Memory
offset b o i = b (o + i)

-- `memcpy(b + o, s, n)`, the regions being disjoint
abbrev pub memcpy : Memory → ℕ → Memory → ℕ → Memory
memcpy b o s n i = if leb o i && ltb i (o + n) then s (i - o) else b i

-- `memset(b, 0, n)`
abbrev pub memzero : Memory → ℕ → Memory
memzero b n i = if ltb i n then 0 else b i

abbrev pub AgreeBelow : ℕ → Memory → Memory → Type 0
AgreeBelow n a b = (i : ℕ) → i < n → a i ≡ b i

abbrev pub IsBytes : ℕ → Memory → Type 0
IsBytes n b = (i : ℕ) → i < n → b i < 256

-- `strnlen(s, n)`
unfoldable pub strnlen : Memory → ℕ → ℕ
strnlen s zero = 0
strnlen s (suc n) = if s 0 == 0 then 0 else suc (strnlen (λ i. s (suc i)) n)

pub strnlen-le : (s : Memory) (n : ℕ) → strnlen s n ≤ n
unfolding strnlen
strnlen-le s zero = omega arith
strnlen-le s (suc n) = ground (arith, strnlen-le (λ i. s (suc i)) n)

-- No byte before the length is a NUL.
pub strnlen-ne_zero : (s : Memory) (n i : ℕ) → i < strnlen s n → 0 < s i
unfolding strnlen
strnlen-ne_zero s zero i h = absurd (omega arith)
strnlen-ne_zero s (suc n) zero h = ground arith
strnlen-ne_zero s (suc n) (suc i) h = ground (arith, strnlen-ne_zero (λ i. s (suc i)) n i)

-- The length is that of the bytes before the first NUL.
pub strnlen-eq :
    (s : Memory) (n k : ℕ) → ((i : ℕ) → i < k → 0 < s i) → s k ≡ 0 → k < n → strnlen s n ≡ k
unfolding strnlen
strnlen-eq s zero k h z l = absurd (omega arith)
strnlen-eq s (suc n) zero h z l = ground arith
strnlen-eq s (suc n) (suc k) h z l =
    ground (arith, h 0, strnlen-eq (λ i. s (suc i)) n k (λ i p. h (suc i) (omega arith)) z)

-- A statement about each number below a numeral, as a tuple that the tactics read and build.
abbrev pub AllBelow : ℕ → (ℕ → Type 0) → Type 0
AllBelow zero P = Unit
AllBelow (suc n) P = P n × AllBelow n P

pub AllBelow→all : (P : ℕ → Type 0) (n : ℕ) → AllBelow n P → (i : ℕ) → i < n → P i
AllBelow→all P zero h i l = absurd (omega arith)
AllBelow→all P (suc n) (p, h) i l = elim (ℕ_discrete n i) [
  | yes e ↦ subst P e p
  | no ne ↦ AllBelow→all P n h i (omega arith)
]

pub all→AllBelow : (P : ℕ → Type 0) (n : ℕ) → ((i : ℕ) → i < n → P i) → AllBelow n P
all→AllBelow P zero h = tt
all→AllBelow P (suc n) h = (h n (omega arith), all→AllBelow P n (λ i l. h i (omega arith)))

-- The `n` bytes from offset `o` on.
abbrev pub slice : Memory → ℕ → ℕ → List ℕ
slice b o zero = []
slice b o (suc n) = b o ∷ slice b (suc o) n

-- A list of bytes put at offset 0 of a memory that is zero elsewhere.
abbrev pub memory_of : List ℕ → Memory
memory_of [] i = 0
memory_of (x ∷ xs) zero = x
memory_of (x ∷ xs) (suc i) = memory_of xs i

pub length-slice : (b : Memory) (o n : ℕ) → length (slice b o n) ≡ n
length-slice b o zero = refl
length-slice b o (suc n) = omega (arith, length-slice b (suc o) n)

pub slice-append :
    (b : Memory) (o m n k j : ℕ) → k ≡ o + m → j ≡ m + n → slice b o m ++ slice b k n ≡ slice b o j
slice-append b o zero n k j e f =
    let e' : k ≡ o = omega arith in let f' : j ≡ n = omega arith in rw (e', f')
slice-append b o (suc m) n k j e f =
    let f' : j ≡ suc (m + n) = omega arith in
    rw f' (ap (λ l. b o ∷ l) (slice-append b (suc o) m n k (m + n) (omega arith) refl))

pub memory_of-slice :
    (b : Memory) (n o i j : ℕ) → i < n → j ≡ o + i → memory_of (slice b o n) i ≡ b j
memory_of-slice b zero o i j h e = absurd (omega arith)
memory_of-slice b (suc n) o zero j h e = let e' : j ≡ o = omega arith in rw e'
memory_of-slice b (suc n) o (suc i) j h e =
    memory_of-slice b n (suc o) i j (omega arith) (omega arith)
