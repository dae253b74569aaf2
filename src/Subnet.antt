-- ===== src/Subnet.antt =====
-- The subnet checker, 02-c-programming/03-02-ipv4-subnet-checker/src/cheking_subnet_membership.c:
-- addresses, masks and membership. A text is the list of its bytes without the NUL.
pub mod RoundTrip
use Prim.Native.Nat.{bit_and, bit_xor}
use mathlib.Core.Option
use eltex_education.Common.{
  ℕ, zero, suc, ◌+◌, ◌-◌, ◌*◌, ◌/◌, ◌%◌, ◌^◌, Bool, true, false, not, ◌&&◌, ◌||◌, Option, none,
  some, List, [], ◌∷◌, ◌++◌, ltb, leb, ◌==◌, if◌then◌else◌, length,
}
use eltex_education.Common.Memory.{Pointer}
use eltex_education.Common.Memory.Words.{u32}
use eltex_education.Common.CString.{CString, cut}

-- `execution_status_t`
pub data Status : Type 0 where
  ok invalid_input allocation_error fail : Status

-- `ipv4_address_t`: the four octets.
pub record Address : Type 0 where
  pub first : ℕ
  pub second : ℕ
  pub third : ℕ
  pub fourth : ℕ

abbrev pub is_digit : ℕ → Bool
is_digit c = leb 48 c && leb c 57

-- The `while` loop of `ipv4_parse` after `digit_count` digits of this value, with the test for a
-- first digit: the octet and the text behind it.
unfoldable pub parse_octet : CString → ℕ → ℕ → Option (ℕ × CString)
parse_octet [] value digit_count = if digit_count == 0 then none else some (value, [])
parse_octet (c ∷ cs) value digit_count =
    let next = value * 10 + (c - 48) in
    let rest = parse_octet cs next (digit_count + 1) in
    if not (is_digit c)
    then (if digit_count == 0 then none else some (value, c ∷ cs))
    else if ltb 3 (digit_count + 1) || ltb 255 next
    then none
    else rest

unfoldable pub expect_dot : CString → Option CString
expect_dot [] = none
expect_dot (c ∷ cs) = if c == 46 then some cs else none

abbrev pub dot_behind : Option (ℕ × CString) → Option (ℕ × CString)
dot_behind none = none
dot_behind (some (v, rest)) = elim (expect_dot rest) [ none ↦ none | some t ↦ some (v, t) ]

-- An octet with the dot behind it.
abbrev pub parse_dotted : CString → Option (ℕ × CString)
parse_dotted text = dot_behind (parse_octet text 0 0)

abbrev pub end_behind : Option (ℕ × CString) → Option ℕ
end_behind none = none
end_behind (some (v, [])) = some v
end_behind (some (v, c ∷ cs)) = none

-- The last octet, with the end of the text behind it.
abbrev pub parse_last : CString → Option ℕ
parse_last text = end_behind (parse_octet text 0 0)

abbrev pub with_fourth : ℕ → ℕ → ℕ → Option ℕ → Option Address
with_fourth a b c none = none
with_fourth a b c (some d) = some (record { first = a; second = b; third = c; fourth = d })

abbrev pub with_third : ℕ → ℕ → Option (ℕ × CString) → Option Address
with_third a b none = none
with_third a b (some (c, text)) = with_fourth a b c (parse_last text)

abbrev pub with_second : ℕ → Option (ℕ × CString) → Option Address
with_second a none = none
with_second a (some (b, text)) = with_third a b (parse_dotted text)

abbrev pub with_first : Option (ℕ × CString) → Option Address
with_first none = none
with_first (some (a, text)) = with_second a (parse_dotted text)

-- The loop over the four octets.
unfoldable pub parse_address : CString → Option Address
parse_address text = with_first (parse_dotted text)

abbrev pub stored : Option Address → Address → Status × Pointer Address
stored none old = (Status.invalid_input, some old)
stored (some a) old = (Status.ok, some a)

unfoldable pub ipv4_parse : Pointer CString → Pointer Address → Status × Pointer Address
ipv4_parse none res = (Status.invalid_input, res)
ipv4_parse (some text) none = (Status.invalid_input, none)
ipv4_parse (some text) (some old) = stored (parse_address text) old

abbrev pub ipv4_to_uint32 : Address → ℕ
ipv4_to_uint32 a = a.first * 2 ^ 24 + a.second * 2 ^ 16 + a.third * 256 + a.fourth

unfoldable pub ipv4_mask_is_valid : Pointer Address → Bool
ipv4_mask_is_valid none = false
ipv4_mask_is_valid (some mask) =
    let inverted = 2 ^ 32 - 1 - ipv4_to_uint32 mask in bit_and inverted (u32 (inverted + 1)) == 0

unfoldable pub subnet_membership : Pointer Address → Pointer Address → Pointer Address → Bool
subnet_membership none subnet mask = false
subnet_membership (some address) none mask = false
subnet_membership (some address) (some subnet) none = false
subnet_membership (some address) (some subnet) (some mask) =
    let m = ipv4_to_uint32 mask in
    bit_xor (bit_and (ipv4_to_uint32 subnet) m) (bit_and (ipv4_to_uint32 address) m) == 0

-- `%u` of an octet.
unfoldable pub decimal : ℕ → CString
decimal v =
    if ltb v 10
    then (48 + v) ∷ []
    else if ltb v 100
    then (48 + v / 10) ∷ (48 + v % 10) ∷ []
    else (48 + v / 100) ∷ (48 + v / 10 % 10) ∷ (48 + v % 10) ∷ []

-- `%u.%u.%u.%u`
unfoldable pub dotted : Address → CString
dotted a =
    decimal a.first
    ++ (46 ∷ (decimal a.second ++ (46 ∷ (decimal a.third ++ (46 ∷ decimal a.fourth)))))

-- The text that `snprintf` leaves is cut to the buffer.
unfoldable pub ipv4_to_string : Pointer Address → Pointer CString → ℕ → Status × Pointer CString
ipv4_to_string none buffer size = (Status.invalid_input, buffer)
ipv4_to_string (some a) none size = (Status.invalid_input, none)
ipv4_to_string (some a) (some old) size =
    if size == 0
    then (Status.invalid_input, some old)
    else if leb size (length (dotted a))
    then (Status.fail, some (cut size (dotted a)))
    else (Status.ok, some (dotted a))

-- `packet_statistics_t`
pub record Statistics : Type 0 where
  pub membership_count : ℕ
  pub all_count : ℕ

-- The loop of `process_packets`.
unfoldable pub count_members : List Address → Address → Address → ℕ
unfolding subnet_membership
count_members [] subnet mask = 0
count_members (p ∷ ps) subnet mask =
    let rest = count_members ps subnet mask in
    if subnet_membership (some p) (some subnet) (some mask) then suc rest else rest

-- `count` is the length of the array.
unfoldable pub process_packets :
    Pointer (List Address)
    → Pointer Address
    → Pointer Address
    → Pointer Statistics
    → Status × Pointer Statistics
unfolding count_members
process_packets none subnet mask statistics = (Status.invalid_input, statistics)
process_packets (some ps) none mask statistics = (Status.invalid_input, statistics)
process_packets (some ps) (some subnet) none statistics = (Status.invalid_input, statistics)
process_packets (some ps) (some subnet) (some mask) none = (Status.invalid_input, none)
process_packets (some ps) (some subnet) (some mask) (some old) =
    if length ps == 0 then (Status.invalid_input, some old) else (
      Status.ok,
      some (record { membership_count = count_members ps subnet mask; all_count = length ps }),
    )
