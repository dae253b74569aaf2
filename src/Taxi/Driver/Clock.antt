-- ===== src/Taxi/Driver/Clock.antt =====
-- The clock arithmetic of driver.c against one count of nanoseconds.
use eltex_education.Common.{
  ℕ, ◌+◌, ◌-◌, ◌*◌, ◌/◌, ◌^◌, ◌<◌, ◌≡◌, ◌↔◌, ◌&&◌, min, arith, if◌then◌else◌, ltb, ap, ◌∙◌,
}
use eltex_education.Common.Int.{ℤ, neg_part, sub_ℕ, pos_part, negsuc}
use eltex_education.Taxi.Driver.{
  Timespec, Driver, uint32_max, clamp_seconds, rounded_seconds, compare_time, update_state,
  remaining_seconds, make_timeout,
}

-- A time in nanoseconds.
abbrev pub nanos : Timespec → ℕ
nanos t = t.tv_sec * 1000000000 + t.tv_nsec

-- `tv_nsec` is below a second, as `clock_gettime` answers.
abbrev pub IsNormal : Timespec → Type 0
IsNormal t = t.tv_nsec < 1000000000

pub compare_time-lt :
    (a b : Timespec) → IsNormal a → IsNormal b → (compare_time a b ≡ negsuc 0) ↔ (nanos a < nanos b)
unfolding compare_time
compare_time-lt a b ha hb = (λ h. ground arith, λ h. ground arith)

-- For a normal deadline and a normal time, `update_state` leaves the driver busy exactly when it
-- was busy and the deadline lies ahead.
pub update_state-busy :
    (d : Driver) (now : Timespec)
    → IsNormal d.deadline
    → IsNormal now
    → (update_state d now).busy ≡ (d.busy && ltb (nanos now) (nanos d.deadline))
unfolding update_state compare_time
update_state-busy d now hd hn = ground arith

clamp_seconds-eq : (z : ℤ) → clamp_seconds z ≡ min uint32_max (pos_part z)
clamp_seconds-eq z = ground arith

rounded_seconds_parts :
    (z n : ℤ)
    → pos_part (rounded_seconds z n)
      ≡ pos_part z + (if ltb 0 (pos_part n) then 1 else 0) - neg_part z
rounded_seconds_parts z n = ground arith

pos_part-sub : (a b : ℕ) → pos_part (sub_ℕ a b) ≡ a - b
pos_part-sub a b = ground arith

neg_part-sub : (a b : ℕ) → neg_part (sub_ℕ a b) ≡ b - a
neg_part-sub a b = ground arith

whole_seconds :
    (a b c d : ℕ)
    → c < 1000000000
    → d < 1000000000
    → a - b + (if ltb 0 (c - d) then 1 else 0) - (b - a)
      ≡ (a * 1000000000 + c - (b * 1000000000 + d) + 999999999) / 1000000000
whole_seconds a b c d hc hd = ground arith

rounded_seconds-eq :
    (a b c d : ℕ)
    → c < 1000000000
    → d < 1000000000
    → pos_part (rounded_seconds (sub_ℕ a b) (sub_ℕ c d))
      ≡ (a * 1000000000 + c - (b * 1000000000 + d) + 999999999) / 1000000000
rounded_seconds-eq a b c d hc hd =
    rounded_seconds_parts (sub_ℕ a b) (sub_ℕ c d)
    ∙ rw (pos_part-sub a b, pos_part-sub c d, neg_part-sub a b) (whole_seconds a b c d hc hd)

-- For a normal deadline and a normal time, `remaining_seconds` is the time to the deadline in
-- seconds, rounded up, 0 from the deadline on, and at most 2 ^ 32 - 1.
pub remaining_seconds-eq :
    (d : Driver) (now : Timespec)
    → IsNormal d.deadline
    → IsNormal now
    → remaining_seconds d now
      ≡ min uint32_max ((nanos d.deadline - nanos now + 999999999) / 1000000000)
unfolding remaining_seconds
remaining_seconds-eq d now hd hn =
    clamp_seconds-eq
      (rounded_seconds (sub_ℕ d.deadline.tv_sec now.tv_sec) (sub_ℕ d.deadline.tv_nsec now.tv_nsec))
    ∙ ap (min uint32_max)
        (rounded_seconds-eq d.deadline.tv_sec now.tv_sec d.deadline.tv_nsec now.tv_nsec hd hn)

-- For a normal deadline and a normal time, `make_timeout` is the time to the deadline in whole
-- microseconds, 0 from the deadline on, with less than a million in `tv_usec`.
pub make_timeout-eq :
    (d : Driver) (now : Timespec)
    → IsNormal d.deadline
    → IsNormal now
    → ((make_timeout d now).tv_sec * 1000000 + (make_timeout d now).tv_usec
        ≡ (nanos d.deadline - nanos now) / 1000)
      × ((make_timeout d now).tv_usec < 1000000)
unfolding make_timeout
make_timeout-eq d now hd hn = ground arith

pub remaining_seconds-lt : (d : Driver) (now : Timespec) → remaining_seconds d now < 2 ^ 32
unfolding remaining_seconds
remaining_seconds-lt d now = omega (
  arith,
  clamp_seconds-eq
      (rounded_seconds (sub_ℕ d.deadline.tv_sec now.tv_sec) (sub_ℕ d.deadline.tv_nsec now.tv_nsec)),
)
