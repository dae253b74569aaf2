-- ===== src/Common/Memory/Words.antt =====
-- Big-endian words in memory: `htons`/`htonl` and `memcpy`, as the protocol files use them.
use Prim.Native.Nat.{ℕ, ◌+◌, ◌*◌, ◌/◌, ◌%◌, ◌^◌, ◌<◌}
use mathlib.Core.Path.{◌≡◌}
use native.Mathlib.Omega.{arith}
use eltex_education.Common.Memory.{Memory, store}

-- The casts `(uint8_t)x`, `(uint16_t)x`, `(uint32_t)x`, `(uint64_t)x`.
abbrev pub u8 : ℕ → ℕ
u8 x = x % 256

abbrev pub u16 : ℕ → ℕ
u16 x = x % 2 ^ 16

abbrev pub u32 : ℕ → ℕ
u32 x = x % 2 ^ 32

abbrev pub u64 : ℕ → ℕ
u64 x = x % 2 ^ 64

abbrev pub write_u16 : Memory → ℕ → ℕ → Memory
write_u16 b o v = store (store b o (v / 256 % 256)) (o + 1) (v % 256)

abbrev pub write_u32 : Memory → ℕ → ℕ → Memory
write_u32 b o v =
    store
      (store (store (store b o (v / 2 ^ 24 % 256)) (o + 1) (v / 2 ^ 16 % 256)) (o + 2)
        (v / 256 % 256))
      (o + 3) (v % 256)

abbrev pub write_u64 : Memory → ℕ → ℕ → Memory
write_u64 b o v = write_u32 (write_u32 b o (u32 (v / 2 ^ 32))) (o + 4) (u32 v)

abbrev pub read_u16 : Memory → ℕ → ℕ
read_u16 b o = b o * 256 + b (o + 1)

abbrev pub read_u32 : Memory → ℕ → ℕ
read_u32 b o = b o * 2 ^ 24 + b (o + 1) * 2 ^ 16 + b (o + 2) * 256 + b (o + 3)

abbrev pub read_u64 : Memory → ℕ → ℕ
read_u64 b o = read_u32 b o * 2 ^ 32 + read_u32 b (o + 4)

pub word_u32 :
    (v : ℕ)
    → v < 2 ^ 32
    → v / 2 ^ 24 % 256 * 2 ^ 24 + v / 2 ^ 16 % 256 * 2 ^ 16 + v / 256 % 256 * 256 + v % 256 ≡ v
word_u32 v h = omega arith

pub word_u16 : (v : ℕ) → v < 2 ^ 16 → v / 256 % 256 * 256 + v % 256 ≡ v
word_u16 v h = omega arith
