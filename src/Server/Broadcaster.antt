-- ===== src/Server/Broadcaster.antt =====
-- internal/server/sse/broadcaster.go (package sse). A client channel is known by a number. Whether
-- a client reads within the second that a send waits for, and whether it unsubscribes before the
-- send, are arguments; a send on a closed channel panics.
use pangreksa_aigateway.Prelude.{
  ℕ, suc, Bool, true, false, List, [], ◌∷◌, ◌++◌, ◌==◌, ltb, if◌then◌else◌, Option, none, some,
  length,
}
use pangreksa_aigateway.Prelude.Texts.{Text}

pub record Event : Type 0 where
  pub type : Text
  pub payload : Text

abbrev pub channel_capacity : ℕ
channel_capacity = 16

pub record Client : Type 0 where
  pub channel : ℕ
  pub buffer : List Event

pub record Broadcaster : Type 0 where
  pub clients : List Client
  pub next_channel : ℕ

unfoldable pub new_broadcaster : Broadcaster
new_broadcaster = record { clients = []; next_channel = 0 }

-- `make` gives a channel that no other client has.
unfoldable pub subscribe : Broadcaster → ℕ × Broadcaster
subscribe b = (
  b.next_channel,
  record {
    clients = record { channel = b.next_channel; buffer = [] } ∷ b.clients;
    next_channel = suc b.next_channel;
  },
)

unfoldable pub without : ℕ → List Client → List Client
without channel [] = []
without channel (c ∷ cs) =
    let rest = without channel cs in if c.channel == channel then rest else c ∷ rest

unfoldable pub unsubscribe : ℕ → Broadcaster → Broadcaster
unsubscribe channel b = record b { clients = without channel b.clients }

unfoldable pub client_count : Broadcaster → ℕ
client_count b = length b.clients

-- What happens at a client while a broadcast is on its way to it.
pub data Reader : Type 0 where
  idle reads gone : Reader

-- The send to one client: the client after it, or `none` for a panic.
unfoldable pub send_to : Event → Reader → Client → Option Client
send_to event gone c = none
send_to event idle c =
    if ltb (length c.buffer) channel_capacity
    then some (record c { buffer = c.buffer ++ event ∷ [] })
    else some c
send_to event reads c = elim c.buffer [
  | [] ↦ some (record c { buffer = event ∷ [] })
  | _ ∷ later ↦ some (record c { buffer = later ++ event ∷ [] })
]

-- The loop over the snapshot of the clients; a panic leaves the clients that were served so.
unfoldable pub send_all : Event → (ℕ → Reader) → List Client → Bool × List Client
send_all event readers [] = (true, [])
send_all event readers (c ∷ cs) =
    let (fine, rest) = send_all event readers cs in
    elim (send_to event (readers c.channel) c) [
      | none ↦ (false, c ∷ cs)
      | some c' ↦ (fine, c' ∷ rest)
    ]

-- Whether the broadcast ends without a panic, and the broadcaster after it.
unfoldable pub broadcast : Event → (ℕ → Reader) → Broadcaster → Bool × Broadcaster
broadcast event readers b =
    let (fine, clients) = send_all event readers b.clients in (fine, record b { clients = clients })
