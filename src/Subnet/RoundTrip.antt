-- ===== src/Subnet/RoundTrip.antt =====
-- An address that is printed parses to itself.
use eltex_education.Common.{ℕ, ◌<◌, ◌≡◌, refl, some, [], ◌∷◌, ◌++◌, arith, length}
use eltex_education.Common.CString.{CString}
use eltex_education.Subnet.{
  Status, Address, parse_octet, expect_dot, parse_dotted, parse_last, parse_address, ipv4_parse,
  decimal, dotted, ipv4_to_string,
}

parse_octet-decimal_dot :
    (v : ℕ) (rest : CString)
    → v < 256
    → parse_octet (decimal v ++ (46 ∷ rest)) 0 0 ≡ some (v, 46 ∷ rest)
unfolding parse_octet decimal
parse_octet-decimal_dot v rest h = ground arith

parse_octet-decimal : (v : ℕ) → v < 256 → parse_octet (decimal v) 0 0 ≡ some (v, [])
unfolding parse_octet decimal
parse_octet-decimal v h = ground arith

parse_dotted-decimal :
    (v : ℕ) (rest : CString) → v < 256 → parse_dotted (decimal v ++ (46 ∷ rest)) ≡ some (v, rest)
unfolding expect_dot
parse_dotted-decimal v rest h = rw (parse_octet-decimal_dot v rest h) refl

parse_last-decimal : (v : ℕ) → v < 256 → parse_last (decimal v) ≡ some v
parse_last-decimal v h = rw (parse_octet-decimal v h) refl

pub record IsAddress (a : Address) : Type 0 where
  pub first : a.first < 256
  pub second : a.second < 256
  pub third : a.third < 256
  pub fourth : a.fourth < 256

address-decimal : (a : Address) → IsAddress a → parse_address (dotted a) ≡ some a
unfolding parse_address dotted
address-decimal a v =
    rw
      (
        parse_dotted-decimal a.first
            (decimal a.second ++ (46 ∷ (decimal a.third ++ (46 ∷ decimal a.fourth)))) v.first,
        parse_dotted-decimal a.second (decimal a.third ++ (46 ∷ decimal a.fourth)) v.second,
        parse_dotted-decimal a.third (decimal a.fourth) v.third,
        parse_last-decimal a.fourth v.fourth,
      )
      refl

-- For an address of four octets below 256 and a buffer larger than its text, `ipv4_to_string`
-- succeeds with the dotted text, and `ipv4_parse` reads the same address back from it.
pub ipv4_parse-to_string :
    (a old : Address) (buffer : CString) (size : ℕ)
    → IsAddress a
    → length (dotted a) < size
    → (ipv4_to_string (some a) (some buffer) size ≡ (Status.ok, some (dotted a)))
      × (ipv4_parse (some (dotted a)) (some old) ≡ (Status.ok, some a))
unfolding ipv4_to_string ipv4_parse
ipv4_parse-to_string a old buffer size v h = (ground arith, rw (address-decimal a v) refl)
