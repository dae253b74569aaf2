-- ===== src/Tests/Datagrams.antt =====
-- A raw UDP datagram of two bytes between two addresses.
use eltex_education.Common.{ℕ, ◌+◌, ◌-◌, ◌≡◌, refl, ap, true, some, arith, ltb, ◌==◌, if◌then◌else◌}
use eltex_education.Common.Memory.{Memory, offset, AgreeBelow}
use eltex_education.RawUdp.{raw_udp_build, raw_udp_parse, zero_datagram, datagram_at}
use eltex_education.RawUdp.RoundTrip.{built, raw_udp_parse-build}

abbrev blank : Memory
blank i = 0

-- 127.0.0.1
abbrev loopback : Memory
loopback i = if i == 0 then 127 else if i == 3 then 1 else 0

abbrev hi : Memory
hi i = if i == 0 then b'h' else b'i'

-- The IPv4 header of 20 bytes and then a datagram.
abbrev behind_header : Memory → Memory
behind_header datagram i =
    if i == 0
    then 69
    else if i == 2
    then 0
    else if i == 3
    then 30
    else if i == 9
    then 17
    else if ltb i 12
    then 0
    else if ltb i 16
    then loopback (i - 12)
    else if ltb i 20
    then loopback (i - 16)
    else datagram (i - 20)

behind : (b : Memory) (i : ℕ) → behind_header b (20 + i) ≡ b i
behind b i = let e : 20 + i - 20 ≡ i = omega arith in let f = ap b e in ground arith

abbrev received : Memory
received = behind_header (built blank loopback loopback hi 5000 7 2)

raw_udp_parse-build_example :
    let got = datagram_at received 20 10 in
    (raw_udp_build (some blank) 10 (some 0) loopback loopback 5000 7 (some hi) 2
      ≡ some (true, some (built blank loopback loopback hi 5000 7 2), some 10))
    × (raw_udp_parse (some received) 30 (some zero_datagram) ≡ some (true, some got))
    × (got.source_port ≡ 5000)
    × (got.destination_port ≡ 7)
    × (got.payload_size ≡ 2)
    × AgreeBelow 2 (offset received 28) hi
raw_udp_parse-build_example =
    raw_udp_parse-build blank loopback loopback hi 5000 7 2 (λ i l. ground arith)
      (λ i l. ground arith) (λ i l. ground arith) (omega arith) (omega arith) (omega arith) received
      5 (λ i l. behind (built blank loopback loopback hi 5000 7 2) i) (λ i l. from i l)
      (λ i l. to i l) 10 0 30 zero_datagram (omega arith) refl (omega arith) (omega arith) refl refl
      (omega arith)
  where
    from : AgreeBelow 4 (offset received 12) loopback
    from i l = ground arith

    to : AgreeBelow 4 (offset received 16) loopback
    to i l = ground arith
