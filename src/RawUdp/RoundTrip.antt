-- ===== src/RawUdp/RoundTrip.antt =====
-- A datagram that `raw_udp_build` makes, behind an IPv4 header, parses.
use eltex_education.Common.{
  ℕ, suc, ◌+◌, ◌-◌, ◌*◌, ◌/◌, ◌%◌, ◌^◌, ◌≤◌, ◌<◌, ◌≡◌, ◌∙◌, ap, true, some, arith,
}
use eltex_education.Common.Memory.{Memory, offset, AgreeBelow, IsBytes}
use eltex_education.Common.Memory.Words.{read_u16, word_u16}
use eltex_education.RawUdp.{
  checksum_add, pseudo_header, udp_checksum, with_header, sent_checksum, with_payload,
  raw_udp_build, Datagram, datagram_at, raw_udp_parse, ipproto_udp,
}
use eltex_education.RawUdp.Checksum.{
  words, words-le, words-agree, checksum_add-words, checksum_finish-eq,
}

words_header :
    (b : Memory) (sp dp n c size : ℕ)
    → sp < 2 ^ 16
    → dp < 2 ^ 16
    → n < 2 ^ 16
    → c < 2 ^ 16
    → words (with_header b sp dp n c) (8 + size) ≡ sp + dp + n + c + words (offset b 8) size
words_header b sp dp n c size hs hd hn hc =
    let e : 8 + size ≡ suc (suc (suc (suc (suc (suc (suc (suc size))))))) = omega arith in
    let w : Memory = with_header b sp dp n c in
    let rest =
      words-agree (offset (offset (offset (offset w 2) 2) 2) 2) (offset b 8) size
        (λ i l. ground arith) in
    rw e (omega (arith, rest, word_u16 sp hs, word_u16 dp hd, word_u16 n hn, word_u16 c hc))

-- The sum of the pseudo header's words.
abbrev address_words : Memory → ℕ
address_words a = a 0 * 256 + a 1 + (a 2 * 256 + a 3)

words_pseudo :
    (s d : Memory) (n : ℕ)
    → n < 2 ^ 16
    → words (pseudo_header s d n) 12 ≡ address_words s + address_words d + 17 + n
words_pseudo s d n h = omega (arith, word_u16 n h)

udp_checksum-eq :
    (s d b : Memory) (n : ℕ)
    → IsBytes 4 s
    → IsBytes 4 d
    → IsBytes n b
    → n < 2 ^ 16
    → udp_checksum s d b n
      ≡ some (65535 - ((address_words s + address_words d + 17 + n + words b n - 1) % 65535 + 1))
unfolding udp_checksum
udp_checksum-eq s d b n hs hd hb h =
    let p = words_pseudo s d n h in
    let lp : address_words s + address_words d + 17 + n < 2 ^ 20 =
      omega (arith, hs 0, hs 1, hs 2, hs 3, hd 0, hd 1, hd 2, hd 3) in
    let lb = words-le b n hb in
    let first : checksum_add 0 (pseudo_header s d n) 12
        ≡ address_words s + address_words d + 17 + n =
      checksum_add-words 0 (pseudo_header s d n) 12 (omega (arith, p)) ∙ omega (arith, p) in
    rw (first, checksum_add-words (address_words s + address_words d + 17 + n) b n (omega arith))
      (checksum_finish-eq (address_words s + address_words d + 17 + n + words b n) (omega arith)
        (omega arith))

-- The checksum of a sum that the sent checksum completes is 0.
completed :
    (sum : ℕ)
    → 0 < sum
    → let c = sent_checksum (65535 - ((sum - 1) % 65535 + 1)) in
      65535 - ((sum + c - 1) % 65535 + 1) ≡ 0
completed sum h = ground arith

sent_checksum-lt : (sum : ℕ) → sent_checksum (65535 - ((sum - 1) % 65535 + 1)) < 2 ^ 16
sent_checksum-lt sum = ground arith

module _ (packet source destination payload : Memory) (sport dport size : ℕ) where
  -- The packet before its checksum is known, the sum that the checksum is of, and the packet sent.
  abbrev blank : Memory
  blank = with_payload (with_header packet sport dport (8 + size) 0) (some payload) size

  abbrev total : ℕ
  total =
      address_words source + address_words destination + 17 + (8 + size) + words blank (8 + size)

  abbrev pub built : Memory
  built =
      with_header blank sport dport (8 + size) (sent_checksum (65535 - ((total - 1) % 65535 + 1)))

  module _ (hs : IsBytes 4 source) (hd : IsBytes 4 destination) (hp : IsBytes size payload)
      (ls : sport < 2 ^ 16) (ld : dport < 2 ^ 16) (fits : size ≤ 65527) where
    blank-IsBytes : IsBytes (8 + size) blank
    blank-IsBytes i l = let b = hp (i - 8) in ground arith

    built-IsBytes : IsBytes (8 + size) built
    built-IsBytes i l = let b = blank-IsBytes i l in let c = sent_checksum-lt total in ground arith

    words-blank : words blank (8 + size) ≡ sport + dport + (8 + size) + words (offset blank 8) size
    words-blank =
        words-agree blank (with_header blank sport dport (8 + size) 0) (8 + size)
          (λ i l. ground arith)
        ∙ words_header blank sport dport (8 + size) 0 size ls ld (omega arith) (omega arith)
        ∙ omega arith

    -- The checksum adds to the sum of the blank packet.
    words-built :
        words built (8 + size)
        ≡ words blank (8 + size) + sent_checksum (65535 - ((total - 1) % 65535 + 1))
    words-built =
        words_header blank sport dport (8 + size)
          (sent_checksum (65535 - ((total - 1) % 65535 + 1))) size ls ld (omega arith)
          (sent_checksum-lt total)
        ∙ omega (arith, words-blank)

    build-built :
        (capacity n : ℕ)
        → 8 + size ≤ capacity
        → raw_udp_build
            (some packet)
            capacity
            (some n)
            source
            destination
            sport
            dport
            (some payload)
            size
          ≡ some (true, some built, some (8 + size))
    unfolding raw_udp_build
    build-built capacity n c =
        let e =
          udp_checksum-eq source destination blank (8 + size) hs hd blank-IsBytes (omega arith) in
        ground (arith, e)

    module _ (p : Memory) (ihl : ℕ) (same : AgreeBelow (8 + size) (offset p (ihl * 4)) built)
        (from : AgreeBelow 4 (offset p 12) source)
        (to : AgreeBelow 4 (offset p 16) destination) where
      verifies : udp_checksum (offset p 12) (offset p 16) (offset p (ihl * 4)) (8 + size) ≡ some 0
      verifies =
          udp_checksum-eq (offset p 12) (offset p 16) (offset p (ihl * 4)) (8 + size)
            (λ i l. omega (arith, from i l, hs i l)) (λ i l. omega (arith, to i l, hd i l))
            (λ i l. omega (arith, same i l, built-IsBytes i l)) (omega arith)
          ∙ ap some (ap (λ t. 65535 - ((t - 1) % 65535 + 1)) sums ∙ completed total (omega arith))
        where
          sums :
              address_words (offset p 12)
                + address_words (offset p 16)
                + 17
                + (8 + size)
                + words (offset p (ihl * 4)) (8 + size)
              ≡ total + sent_checksum (65535 - ((total - 1) % 65535 + 1))
          sums = omega (
            arith,
            from 0,
            from 1,
            from 2,
            from 3,
            to 0,
            to 1,
            to 2,
            to 3,
            words-built,
            words-agree (offset p (ihl * 4)) built (8 + size) same,
          )

      length_field : read_u16 (offset p (ihl * 4)) 4 ≡ 8 + size
      length_field = omega (arith, same 4, same 5, word_u16 (8 + size))

      parses :
          (packet_size : ℕ) (d : Datagram)
          → p 0 ≡ 64 + ihl
          → 5 ≤ ihl
          → ihl < 16
          → p 9 ≡ ipproto_udp
          → read_u16 p 2 ≡ ihl * 4 + (8 + size)
          → ihl * 4 + (8 + size) ≤ packet_size
          → raw_udp_parse (some p) packet_size (some d)
            ≡ some (true, some (datagram_at p (ihl * 4) (8 + size)))
      unfolding raw_udp_parse
      parses packet_size d v l g u t f =
          let low : p 0 % 16 ≡ ihl = omega arith in
          let high : p 0 / 16 ≡ 4 = omega arith in
          rw (low, high, u, t, length_field, verifies) (ground arith)

      -- For addresses, ports and a payload of bytes, of at most 65527, and a buffer that is large
      -- enough, `raw_udp_build` succeeds; behind an IPv4 header with those addresses, the protocol
      -- UDP and the right lengths, `raw_udp_parse` accepts what it built, checksum included, and
      -- reports the same ports, payload size and payload.
      pub raw_udp_parse-build :
          (capacity n packet_size : ℕ) (d : Datagram)
          → 8 + size ≤ capacity
          → p 0 ≡ 64 + ihl
          → 5 ≤ ihl
          → ihl < 16
          → p 9 ≡ ipproto_udp
          → read_u16 p 2 ≡ ihl * 4 + (8 + size)
          → ihl * 4 + (8 + size) ≤ packet_size
          → let got = datagram_at p (ihl * 4) (8 + size) in
            (raw_udp_build
                (some packet)
                capacity
                (some n)
                source
                destination
                sport
                dport
                (some payload)
                size
              ≡ some (true, some built, some (8 + size)))
            × (raw_udp_parse (some p) packet_size (some d) ≡ some (true, some got))
            × (got.source_port ≡ sport)
            × (got.destination_port ≡ dport)
            × (got.payload_size ≡ size)
            × AgreeBelow size (offset p (ihl * 4 + 8)) payload
      raw_udp_parse-build capacity n packet_size d c v l g u t f = (
        build-built capacity n c,
        parses packet_size d v l g u t f,
        let z : ihl * 4 + 0 ≡ ihl * 4 = omega arith in
            omega (arith, same 0, same 1, ap p z, word_u16 sport ls),
        let z : ihl * 4 + 3 ≡ ihl * 4 + 2 + 1 = omega arith in
            omega (arith, same 2, same 3, ap p z, word_u16 dport ld),
        omega arith,
        λ i h. carried i h,
      )
        where
          carried : (i : ℕ) → i < size → p (ihl * 4 + 8 + i) ≡ payload i
          carried i h =
              let e = same (8 + i) (omega arith) in
              let f : ihl * 4 + 8 + i ≡ ihl * 4 + (8 + i) = omega arith in
              let g : 8 + i - 8 ≡ i = omega arith in
              rw f (e ∙ (let z = ap payload g in ground arith))
