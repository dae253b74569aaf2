-- ===== src/Echo/Server/Counters.antt =====
-- The clients of the echo server as a map from addresses to counters.
use eltex_education.Common.{
  ℕ, ◌+◌, ◌≤◌, ◌<◌, ◌≡◌, ◌≢◌, inl, inr, refl, Bool, true, false, not, ◌&&◌, ◌||◌, none, some, List,
  [], ◌∷◌, arith, ltb, ◌==◌, if◌then◌else◌, Option-cases, Bool-cases, All,
}
use eltex_education.Echo.Server.{
  Client, uint32_max, client_matches, bump, server_state_next_counter, server_state_remove_client,
}

-- The number of replies that a client has had: 0 for an unknown one.
abbrev pub count_of : List Client → ℕ → ℕ → ℕ
count_of [] ip port = 0
count_of (c ∷ cs) ip port = if client_matches c ip port then c.counter else count_of cs ip port

-- No two entries have one address, and every counter is a `uint32_t` from 1 on.
abbrev pub IsTable : List Client → Type 0
IsTable [] = Unit {0}
IsTable (c ∷ cs) =
    (0 < c.counter)
    × (c.counter ≤ uint32_max)
    × All (λ d. client_matches d c.ip c.port ≡ false) cs
    × IsTable cs

All-count :
    (cs : List Client) (ip port : ℕ)
    → All (λ d. client_matches d ip port ≡ false) cs
    → count_of cs ip port ≡ 0
All-count [] ip port a = refl
All-count (c ∷ cs) ip port (n, a) = rw n (All-count cs ip port a)

-- In a table with one entry of a counter from 1 on for each address, `server_state_remove_client`
-- forgets the client's counter and keeps every other.
pub count_of-remove :
    (cs : List Client) (ip port jp qort : ℕ)
    → IsTable cs
    → count_of (server_state_remove_client cs ip port).1 jp qort
      ≡ (if ip == jp && port == qort then 0 else count_of cs jp qort)
unfolding server_state_remove_client
count_of-remove [] ip port jp qort t = ground arith
count_of-remove (c ∷ cs) ip port jp qort (p, q, a, t) =
    ground (arith, All-count cs c.ip c.port a, count_of-remove cs ip port jp qort t)

bump-none :
    (cs : List Client) (ip port : ℕ)
    → bump cs ip port ≡ none
    → All (λ d. client_matches d ip port ≡ false) cs
unfolding bump
bump-none [] ip port e = tt
bump-none (c ∷ cs) ip port e = (ground arith, bump-none cs ip port (ground arith))

-- What a successful search of `bump` does to the counts: it stops at the largest counter, or adds
-- one to this client's and leaves every other.
abbrev Bumped : List Client → ℕ → ℕ → ℕ → ℕ → ℕ → List Client → Type 0
Bumped cs ip port jp qort n cs' =
    (0 < count_of cs ip port)
    × (count_of cs ip port ≤ uint32_max)
    × (n ≡ (if count_of cs ip port == uint32_max then 0 else count_of cs ip port + 1))
    × (count_of cs' jp qort
        ≡ (if ip == jp && port == qort && ltb 0 n then n else count_of cs jp qort))

bump-there :
    (c : Client) (cs : List Client) (ip port jp qort n : ℕ) (cs' : List Client)
    → 0 < c.counter
    → c.counter ≤ uint32_max
    → client_matches c ip port ≡ true
    → bump (c ∷ cs) ip port ≡ some (n, cs')
    → Bumped (c ∷ cs) ip port jp qort n cs'
unfolding bump
bump-there c cs ip port jp qort n cs' p q m e = ground arith

bump-later :
    (c : Client) (cs : List Client) (ip port n : ℕ) (cs' : List Client)
    → client_matches c ip port ≡ false
    → bump (c ∷ cs) ip port ≡ some (n, cs')
    → (r : List Client) × (bump cs ip port ≡ some (n, r)) × (cs' ≡ c ∷ r)
unfolding bump
bump-later c cs ip port n cs' m e = elim (Option-cases (bump cs ip port)) [
  | inl x ↦ absurd (ground arith)
  | inr ((k, r), x) ↦ (r, ground arith, ground arith)
]

bump-nil : (ip port n : ℕ) (cs' : List Client) → bump [] ip port ≢ some (n, cs')
unfolding bump
bump-nil ip port n cs' e = cc

bump_counts :
    (cs : List Client) (ip port jp qort n : ℕ) (cs' : List Client)
    → IsTable cs
    → bump cs ip port ≡ some (n, cs')
    → Bumped cs ip port jp qort n cs'
bump_counts [] ip port jp qort n cs' t e = absurd (bump-nil ip port n cs' e)
bump_counts (c ∷ cs) ip port jp qort n cs' (p, q, a, t) e =
    let rec = λ (r : List Client) (x : bump cs ip port ≡ some (n, r)).
      bump_counts cs ip port jp qort n r t x in
    elim (Bool-cases (client_matches c ip port)) [
      | inl m ↦ bump-there c cs ip port jp qort n cs' p q m e
      | inr m ↦
          let (r, x, y) = bump-later c cs ip port n cs' m e in
          let ih = rec r x in rw (y, m) (ground arith)
    ]

-- In a table with one entry of a counter from 1 on for each address, `server_state_next_counter`
-- gives a client its last counter plus one, or 1 to a new client if there is memory, and changes
-- no other client's; at the largest counter, or without memory, it fails with 0 and every counter
-- stays.
pub next_counter-count :
    (alloc : Bool) (cs : List Client) (ip port jp qort : ℕ)
    → IsTable cs
    → let (ok, n, cs') = server_state_next_counter alloc cs ip port in
      let old = count_of cs ip port in
      (ok ≡ ltb 0 n)
      × (n ≡ (if old == uint32_max || not (alloc || ltb 0 old) then 0 else old + 1))
      × (count_of cs' jp qort
          ≡ (if ip == jp && port == qort && ltb 0 n then n else count_of cs jp qort))
unfolding server_state_next_counter
next_counter-count alloc cs ip port jp qort t = elim (Option-cases (bump cs ip port)) [
  | inl e ↦ rw e (ground (arith, All-count cs ip port (bump-none cs ip port e)))
  | inr ((n, cs'), e) ↦ rw e (ground (arith, bump_counts cs ip port jp qort n cs' t e))
]
