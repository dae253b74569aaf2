-- ===== src/RawUdp.antt =====
-- src/raw_udp.c of 03-ipc-and-network-programming/cross-01-raw-udp-echo: the UDP checksum, and UDP
-- packets built and parsed. An address is its four bytes, in network order.
pub mod Checksum
pub mod RoundTrip
use eltex_education.Common.{
  ℕ, zero, suc, ◌+◌, ◌-◌, ◌*◌, ◌/◌, ◌%◌, ◌^◌, Bool, true, false, not, ◌&&◌, ◌||◌, Option, none,
  some, ltb, leb, ◌==◌, ◌!=◌, if◌then◌else◌,
}
use eltex_education.Common.Memory.{Memory, Pointer, store, offset, memcpy}
use eltex_education.Common.Memory.Words.{u16, u32, read_u16, write_u16}

abbrev pub udp_header_size : ℕ
udp_header_size = 8

-- `sizeof(struct iphdr)`
abbrev pub ip_header_min : ℕ
ip_header_min = 20

abbrev pub ipproto_udp : ℕ
ipproto_udp = 17

-- `sum` is a `uint32_t`.
unfoldable pub checksum_add : ℕ → Memory → ℕ → ℕ
checksum_add sum bytes zero = sum
checksum_add sum bytes (suc zero) = u32 (sum + bytes 0 * 256)
checksum_add sum bytes (suc (suc size)) =
    checksum_add (u32 (sum + (bytes 0 * 256 + bytes 1))) (offset bytes 2) size

-- The loop of `checksum_finish`, `none` if the fuel runs out.
unfoldable pub fold_carries : ℕ → ℕ → Option ℕ
fold_carries zero sum = none
fold_carries (suc fuel) sum =
    let rest = fold_carries fuel (u32 (sum % 2 ^ 16 + sum / 2 ^ 16)) in
    if sum / 2 ^ 16 == 0 then some sum else rest

-- `(uint16_t)~sum`
abbrev pub complemented : Option ℕ → Option ℕ
complemented none = none
complemented (some sum) = some (2 ^ 16 - 1 - u16 sum)

-- Two rounds fold any `uint32_t`, and a third sees that.
unfoldable pub checksum_finish : ℕ → Option ℕ
unfolding fold_carries
checksum_finish sum = complemented (fold_carries 3 sum)

abbrev pub pseudo_header : Memory → Memory → ℕ → Memory
pseudo_header source destination udp_size =
    write_u16
      (store (store (memcpy (memcpy (λ _. 0) 0 source 4) 4 destination 4) 8 0) 9 ipproto_udp) 10
      (u16 udp_size)

unfoldable pub udp_checksum : Memory → Memory → Memory → ℕ → Option ℕ
unfolding checksum_add checksum_finish
udp_checksum source destination packet udp_size =
    checksum_finish
      (checksum_add (checksum_add 0 (pseudo_header source destination udp_size) 12) packet udp_size)

-- `struct udphdr` copied to the front of the packet.
abbrev pub with_header : Memory → ℕ → ℕ → ℕ → ℕ → Memory
with_header packet source_port destination_port udp_size check =
    write_u16
      (write_u16 (write_u16 (write_u16 packet 0 source_port) 2 destination_port) 4 (u16 udp_size)) 6
      check

-- The checksum that is sent: 0 means none, so it goes out as all ones.
abbrev pub sent_checksum : ℕ → ℕ
sent_checksum checksum = if checksum == 0 then 2 ^ 16 - 1 else checksum

abbrev pub checked : Memory → ℕ → ℕ → ℕ → Option ℕ → Option (Bool × Pointer Memory × Pointer ℕ)
checked packet source_port destination_port udp_size none = none
checked packet source_port destination_port udp_size (some checksum) = some (
  true,
  some (with_header packet source_port destination_port udp_size (sent_checksum checksum)),
  some udp_size,
)

abbrev pub with_payload : Memory → Pointer Memory → ℕ → Memory
with_payload packet none size = packet
with_payload packet (some payload) size =
    if ltb 0 size then memcpy packet udp_header_size payload size else packet

abbrev pub no_payload : Pointer Memory → Bool
no_payload none = true
no_payload (some payload) = false

-- `none` only if the checksum's loop ran out of fuel.
unfoldable pub raw_udp_build :
    Pointer Memory
    → ℕ
    → Pointer ℕ
    → Memory
    → Memory
    → ℕ
    → ℕ
    → Pointer Memory
    → ℕ
    → Option (Bool × Pointer Memory × Pointer ℕ)
unfolding udp_checksum
raw_udp_build packet capacity none source destination sport dport payload size =
    some (false, packet, none)
raw_udp_build none capacity (some n) source destination sport dport payload size =
    some (false, none, some 0)
raw_udp_build (some packet) capacity (some n) source destination sport dport payload size =
    let udp_size = udp_header_size + size in
    let blank = with_payload (with_header packet sport dport udp_size 0) payload size in
    if ltb 0 size && no_payload payload
    then some (false, some packet, some 0)
    else if ltb (2 ^ 16 - 1 - udp_header_size) size
    then some (false, some packet, some 0)
    else if ltb capacity udp_size
    then some (false, some packet, some 0)
    else checked blank sport dport udp_size (udp_checksum source destination blank udp_size)

-- `raw_udp_datagram_t`
pub record Datagram : Type 0 where
  pub source_ip : Memory
  pub destination_ip : Memory
  pub source_port : ℕ
  pub destination_port : ℕ
  pub payload : Pointer Memory
  pub payload_size : ℕ

abbrev pub zero_datagram : Datagram
zero_datagram = record {
  source_ip = λ _. 0;
  destination_ip = λ _. 0;
  source_port = 0;
  destination_port = 0;
  payload = none;
  payload_size = 0;
}

abbrev pub datagram_at : Memory → ℕ → ℕ → Datagram
datagram_at packet ip_header_size udp_size = record {
  source_ip = offset packet 12;
  destination_ip = offset packet 16;
  source_port = read_u16 packet ip_header_size;
  destination_port = read_u16 packet (ip_header_size + 2);
  payload = some (offset packet (ip_header_size + udp_header_size));
  payload_size = udp_size - udp_header_size;
}

-- The result, given the checksum over the whole datagram.
abbrev pub verified : Memory → ℕ → ℕ → Option ℕ → Option (Bool × Pointer Datagram)
verified packet ip_header_size udp_size none = none
verified packet ip_header_size udp_size (some checksum) =
    if read_u16 packet (ip_header_size + 6) != 0 && checksum != 0
    then some (false, some zero_datagram)
    else some (true, some (datagram_at packet ip_header_size udp_size))

unfoldable pub raw_udp_parse :
    Pointer Memory → ℕ → Pointer Datagram → Option (Bool × Pointer Datagram)
unfolding udp_checksum
raw_udp_parse packet packet_size none = some (false, none)
raw_udp_parse none packet_size (some d) = some (false, some zero_datagram)
raw_udp_parse (some packet) packet_size (some d) =
    let ip_header_size = packet 0 % 16 * 4 in
    let ip_packet_size = read_u16 packet 2 in
    let udp = offset packet ip_header_size in
    let udp_size = read_u16 udp 4 in
    if ltb packet_size ip_header_min
    then some (false, some zero_datagram)
    else if packet 0 / 16 != 4
    then some (false, some zero_datagram)
    else if ltb (packet 0 % 16) 5
    then some (false, some zero_datagram)
    else if packet 9 != ipproto_udp
    then some (false, some zero_datagram)
    else if ltb packet_size ip_header_size || ltb packet_size ip_packet_size
    then some (false, some zero_datagram)
    else if ltb ip_packet_size (ip_header_size + udp_header_size)
    then some (false, some zero_datagram)
    else if ltb udp_size udp_header_size || udp_size != ip_packet_size - ip_header_size
    then some (false, some zero_datagram)
    else verified packet ip_header_size udp_size
        (udp_checksum (offset packet 12) (offset packet 16) udp udp_size)
