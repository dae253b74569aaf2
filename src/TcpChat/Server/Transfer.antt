-- ===== src/TcpChat/Server/Transfer.antt =====
-- The rules of a file transfer over a run of messages of one client.
use eltex_education.Common.{
  ℕ, ◌+◌, ◌-◌, ◌%◌, ◌^◌, ◌≤◌, ◌<◌, ◌≡◌, ◌≢◌, ◌⊎◌, inl, inr, ◌∙◌, refl, ap, Bool, true, false, ◌&&◌,
  List, [], ◌∷◌, ◌++◌, arith, ltb, ◌==◌, ◌!=◌, if◌then◌else◌, Bool-cases, All,
}
use eltex_education.Common.Memory.Words.{u64}
use eltex_education.TcpChat.Protocol.{ChatMessage, file_begin, file_chunk, file_end}
use eltex_education.TcpChat.Server.{Client, validate_file_transfer}

-- Whether every message of a run is let through, each checked in the state that the last one left.
abbrev pub accept_rest : Bool × Client → (Client → Bool) → Bool
accept_rest (false, c) rest = false
accept_rest (true, c) rest = rest c

unfoldable pub accepts : Client → List ChatMessage → Bool
unfolding validate_file_transfer
accepts c [] = true
accepts c (m ∷ ms) = accept_rest (validate_file_transfer c m) (λ c'. accepts c' ms)

-- The bytes of the chunks, and whether they are all of one transfer.
abbrev pub total : List ChatMessage → ℕ
total [] = 0
total (m ∷ ms) = m.file_data_size + total ms

abbrev pub all_of : ℕ → List ChatMessage → Bool
all_of id [] = true
all_of id (m ∷ ms) = (m.transfer_id == id) && all_of id ms

abbrev pub IsChunk : ChatMessage → Type 0
IsChunk m = m.type ≡ file_chunk

-- A transfer of `size` bytes of which `sent` have come.
abbrev InTransfer : Client → ℕ → ℕ → ℕ → Type 0
InTransfer c id size sent =
    (c.transfer_active ≡ true)
    × (c.transfer_id ≡ id)
    × (c.transfer_size ≡ size)
    × (c.transferred_size ≡ sent)

chunk-validated :
    (c : Client) (m : ChatMessage)
    → IsChunk m
    → c.transfer_active ≡ true
    → validate_file_transfer c m ≡ (
        if m.transfer_id != c.transfer_id
        then (false, c)
        else if ltb ((c.transfer_size + 2 ^ 64 - c.transferred_size) % 2 ^ 64) m.file_data_size
        then (false, c)
        else (true, record c { transferred_size = u64 (c.transferred_size + m.file_data_size) }))
unfolding validate_file_transfer
chunk-validated c m k a = simp (k, a)

chunk-cases :
    (m : ChatMessage) (c : Client) (id size sent : ℕ)
    → IsChunk m
    → InTransfer c id size sent
    → sent ≤ size
    → size < 2 ^ 64
    → ((validate_file_transfer c m
          ≡ (true, record c { transferred_size = sent + m.file_data_size }))
        × (m.transfer_id ≡ id)
        × (sent + m.file_data_size ≤ size))
      ⊎ ((validate_file_transfer c m ≡ (false, c))
          × ((m.transfer_id ≢ id) ⊎ (size < sent + m.file_data_size)))
unfolding validate_file_transfer
chunk-cases m c id size sent k (a, i, s, r) l f =
    let wanted : (c.transfer_size + 2 ^ 64 - c.transferred_size) % 2 ^ 64 ≡ size - sent =
      omega arith in
    let checked = chunk-validated c m k a in
    elim (Bool-cases (m.transfer_id != c.transfer_id)) [
      | inl e ↦ inr (checked ∙ rw e refl, inl (ground arith))
      | inr e ↦ elim (Bool-cases (ltb (size - sent) m.file_data_size)) [
        | inl large ↦ inr (checked ∙ rw (e, wanted, large) refl, inr (ground arith))
        | inr fits ↦
            let sum : u64 (c.transferred_size + m.file_data_size) ≡ sent + m.file_data_size =
              ground arith in
            inl (
              checked
                  ∙ rw (e, wanted, fits) (ap (λ n. (true, record c { transferred_size = n })) sum),
              ground arith,
              ground arith,
            )
      ]
    ]

accepts-chunks :
    (ms : List ChatMessage) (e : ChatMessage) (c : Client) (id size sent : ℕ)
    → All IsChunk ms
    → e.type ≡ file_end
    → InTransfer c id size sent
    → sent ≤ size
    → size < 2 ^ 64
    → accepts c (ms ++ (e ∷ []))
      ≡ (all_of id ms && (e.transfer_id == id) && (sent + total ms == size))
unfolding accepts
accepts-chunks [] e c id size sent h t (a, i, s, r) l f = ground arith
accepts-chunks (m ∷ ms) e c id size sent (k, h) t (a, i, s, r) l f =
    elim (chunk-cases m c id size sent k (a, i, s, r) l f) [
      | inl (ok, same, fits) ↦
          let ih =
            accepts-chunks ms e (record c { transferred_size = sent + m.file_data_size }) id size
              (sent + m.file_data_size) h t (a, i, s, refl) fits f in
          rw ok (ih ∙ ground arith)
      | inr (refused, inl other) ↦ rw refused (ground arith)
      | inr (refused, inr large) ↦ rw refused (ground arith)
    ]

-- From a client without a transfer, the messages of a file transfer, its beginning, chunks and its
-- end, are all let through exactly if the chunks and the end name the id of the beginning and the
-- sizes of the chunks add up to the size that it announced, which is below 2 ^ 64.
pub accepts-transfer :
    (c : Client) (b : ChatMessage) (ms : List ChatMessage) (e : ChatMessage)
    → c.transfer_active ≡ false
    → b.type ≡ file_begin
    → All IsChunk ms
    → e.type ≡ file_end
    → b.file_size < 2 ^ 64
    → accepts c (b ∷ (ms ++ (e ∷ [])))
      ≡ (all_of b.transfer_id ms && (e.transfer_id == b.transfer_id) && (total ms == b.file_size))
unfolding accepts
accepts-transfer c b ms e a tb h te f =
    let began : validate_file_transfer c b ≡ (
      true,
      record c {
        transfer_active = true;
        transfer_id = b.transfer_id;
        transfer_size = b.file_size;
        transferred_size = 0;
      },
    ) =
      unfold validate_file_transfer in ground arith in
    rw began (
      accepts-chunks ms e _ b.transfer_id b.file_size 0 h te (refl, refl, refl, refl) (omega arith)
        f
      ∙ (let z : 0 + total ms ≡ total ms = omega arith in rw z refl))
