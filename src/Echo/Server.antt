-- ===== src/Echo/Server.antt =====
-- src/server.c of cross-01-raw-udp-echo: one counter for each client, and the handler of a request.
-- The list of clients is the linked list from its head; `alloc` is the success of `malloc`.
pub mod Counters
use eltex_education.Common.{
  ℕ, ◌+◌, ◌-◌, ◌^◌, Bool, true, false, not, ◌&&◌, ◌||◌, Option, none, some, List, [], ◌∷◌, ltb,
  ◌==◌, ◌!=◌, if◌then◌else◌,
}
use eltex_education.Common.Memory.{Memory, Pointer, store, memcpy}
use eltex_education.Echo.Protocol.{Message, request, response, close, payload_max}

-- `struct server_client`
pub record Client : Type 0 where
  pub ip : ℕ
  pub port : ℕ
  pub counter : ℕ

abbrev pub uint32_max : ℕ
uint32_max = 2 ^ 32 - 1

abbrev pub client_matches : Client → ℕ → ℕ → Bool
client_matches client ip port = client.ip == ip && client.port == port

-- The state of a new server.
abbrev pub server_state_init : List Client
server_state_init = []

-- The search of `server_state_next_counter`: the client's counter and the list after it, `none` if
-- the client is not in the list, and a counter of 0 if it is full.
pub bump : List Client → ℕ → ℕ → Option (ℕ × List Client)
bump [] ip port = none
bump (c ∷ cs) ip port =
    let rest = bump cs ip port in
    if client_matches c ip port
    then (if c.counter == uint32_max
        then some (0, c ∷ cs)
        else some (c.counter + 1, record c { counter = c.counter + 1 } ∷ cs))
    else elim rest [ none ↦ none | some (n, cs') ↦ some (n, c ∷ cs') ]

-- `*counter` is 0 when the call fails.
abbrev counted : Bool → List Client → ℕ → ℕ → Option (ℕ × List Client) → Bool × ℕ × List Client
counted alloc clients ip port (some (n, clients')) = (ltb 0 n, n, clients')
counted alloc clients ip port none =
    if not alloc
    then (false, 0, clients)
    else (true, 1, record { ip = ip; port = port; counter = 1 } ∷ clients)

unfoldable pub server_state_next_counter : Bool → List Client → ℕ → ℕ → Bool × ℕ × List Client
unfolding bump
server_state_next_counter alloc clients ip port =
    counted alloc clients ip port (bump clients ip port)

unfoldable pub server_state_remove_client : List Client → ℕ → ℕ → Bool × List Client
server_state_remove_client [] ip port = (false, [])
server_state_remove_client (c ∷ cs) ip port =
    let (found, rest) = server_state_remove_client cs ip port in
    if client_matches c ip port then (true, cs) else (found, c ∷ rest)

-- What one call of `server_handle_message` does.
pub record Handled : Type 0 where
  pub done : Bool
  pub clients : List Client
  pub reply : Message
  pub should_reply : Bool

abbrev pub zero_message : Message
zero_message = record { type = 0; counter = 0; payload_size = 0; payload = λ _. 0 }

abbrev silent : Bool → List Client → Handled
silent done clients = record {
  done = done;
  clients = clients;
  reply = zero_message;
  should_reply = false;
}

-- The response to a request, built over the zeroed message.
abbrev pub response_to : Message → ℕ → Message
response_to m counter = record {
  type = response;
  counter = counter;
  payload_size = m.payload_size;
  payload =
      store (if ltb 0 m.payload_size then memcpy (λ _. 0) 0 m.payload m.payload_size else (λ _. 0))
        m.payload_size 0;
}

abbrev pub answer : Message → Bool × ℕ × List Client → Handled
answer m (false, counter, clients) = silent false clients
answer m (true, counter, clients) = record {
  done = true;
  clients = clients;
  reply = response_to m counter;
  should_reply = true;
}

unfoldable pub server_handle_message : Bool → List Client → ℕ → ℕ → Message → Handled
unfolding server_state_next_counter server_state_remove_client
server_handle_message alloc clients ip port m =
    if m.type == close
    then (if m.counter != 0 || m.payload_size != 0
        then silent false clients
        else silent true (server_state_remove_client clients ip port).1)
    else if m.type != request
    then silent false clients
    else if m.counter != 0
    then silent false clients
    else if ltb payload_max m.payload_size
    then silent false clients
    else answer m (server_state_next_counter alloc clients ip port)
