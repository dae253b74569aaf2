-- ===== src/RawUdp/Checksum.antt =====
-- The checksum as a sum of words modulo 65535.
use eltex_education.Common.{
  ℕ, zero, suc, ◌+◌, ◌-◌, ◌*◌, ◌%◌, ◌^◌, ◌≤◌, ◌<◌, ◌≡◌, ◌∙◌, refl, some, arith,
}
use eltex_education.Common.Memory.{Memory, offset, AgreeBelow, IsBytes}
use eltex_education.RawUdp.{checksum_add, fold_carries, checksum_finish}

-- The 16-bit words of the data; the last byte of an odd size is the high byte of one.
abbrev pub words : Memory → ℕ → ℕ
words bytes zero = 0
words bytes (suc zero) = bytes 0 * 256
words bytes (suc (suc size)) = bytes 0 * 256 + bytes 1 + words (offset bytes 2) size

pub words-le :
    (bytes : Memory) (size : ℕ) → IsBytes size bytes → words bytes size ≤ 32768 * (size + 1)
words-le bytes zero h = omega arith
words-le bytes (suc zero) h = omega (arith, h 0)
words-le bytes (suc (suc size)) h =
    omega (arith, h 0, h 1, words-le (offset bytes 2) size (λ i l. h (2 + i) (omega arith)))

pub words-agree : (a b : Memory) (size : ℕ) → AgreeBelow size a b → words a size ≡ words b size
words-agree a b zero h = refl
words-agree a b (suc zero) h = omega (arith, h 0)
words-agree a b (suc (suc size)) h =
    omega
      (arith, h 0, h 1, words-agree (offset a 2) (offset b 2) size (λ i l. h (2 + i) (omega arith)))

-- The loop adds the words; a `uint32_t` holds the sum.
pub checksum_add-words :
    (sum : ℕ) (bytes : Memory) (size : ℕ)
    → sum + words bytes size < 2 ^ 32
    → checksum_add sum bytes size ≡ sum + words bytes size
unfolding checksum_add
checksum_add-words sum bytes zero h = omega arith
checksum_add-words sum bytes (suc zero) h = omega arith
checksum_add-words sum bytes (suc (suc size)) h =
    let small : (sum + (bytes 0 * 256 + bytes 1)) % 2 ^ 32 ≡ sum + (bytes 0 * 256 + bytes 1) =
      omega arith in
    rw small (
      checksum_add-words (sum + (bytes 0 * 256 + bytes 1)) (offset bytes 2) size (omega arith)
      ∙ omega arith)

-- The complement of the sum modulo 65535, where a sum that is not 0 counts from 1.
pub checksum_finish-eq :
    (sum : ℕ)
    → 0 < sum
    → sum < 2 ^ 32
    → checksum_finish sum ≡ some (65535 - ((sum - 1) % 65535 + 1))
unfolding checksum_finish fold_carries
checksum_finish-eq sum h l = ground arith
