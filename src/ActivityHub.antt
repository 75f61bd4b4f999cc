-- ===== src/ActivityHub.antt =====
-- hermes/internal/activityhub/hub.go: the ring of the last 1024 events and their live subscribers.
-- Each operation is one step; the two locks of `Publish` guard the ring and the subscribers, so of
-- concurrent publications the model shows one order. A `*subscriber` is its address, the set `subs`
-- the list of its subscribers, and a buffered channel the list of the events waiting in it.
pub mod Ring
pub mod Fanout
pub mod History
mod Tests
use hermes_forge_public.Prelude.{
  ℕ, zero, suc, ◌+◌, ◌-◌, ◌%◌, String, Bool, true, false, not, ◌&&◌, Option, none, some, List, [],
  ◌∷◌, ◌++◌, map, length, ◌==◌, eqb, ltb, if◌then◌else◌,
}
use hermes_forge_public.Sql.{select, first, find, update}

-- `timestamp` is `none` for the zero time.
pub record Event : Type 0 where
  pub api_key : String
  pub envelope_id : String
  pub kind : String
  pub summary : String
  pub timestamp : Option ℕ

abbrev pub ring_size : ℕ
ring_size = 1024

-- The capacity of a subscriber's channel.
abbrev pub channel_size : ℕ
channel_size = 64

pub record Subscriber : Type 0 where
  pub address : ℕ
  pub key : String
  pub channel : List Event

-- `fresh` is the address of the next subscriber.
pub record Hub : Type 0 where
  pub ring : ℕ → Event
  pub head : ℕ
  pub len : ℕ
  pub subs : List Subscriber
  pub fresh : ℕ

abbrev pub zero_event : Event
zero_event = record { api_key = ""; envelope_id = ""; kind = ""; summary = ""; timestamp = none }

-- `New`
abbrev pub new : Hub
new = record { ring = λ i. zero_event; head = 0; len = 0; subs = []; fresh = 0 }

unfoldable pub stamp : ℕ → Event → Event
stamp now e = elim e.timestamp [ none ↦ record e { timestamp = some now } | some _ ↦ e ]

abbrev pub set_slot : ℕ → Event → (ℕ → Event) → ℕ → Event
set_slot head e ring i = if eqb i head then e else ring i

-- What `Publish` does under the first lock.
abbrev pub store : Event → Hub → Hub
store e h = record h {
  ring = set_slot h.head e h.ring;
  head = (h.head + 1) % ring_size;
  len = if ltb h.len ring_size then h.len + 1 else h.len;
}

-- The test that skips an event, in `Publish` and in `Recent`.
unfoldable pub is_hidden : String → Event → Bool
is_hidden key e = not (key == "") && not (e.api_key == "") && not (key == e.api_key)

-- The select with a default: a full channel drops the event.
unfoldable pub offer : Event → Subscriber → Subscriber
offer e sub =
    if is_hidden sub.key e
    then sub
    else if ltb (length sub.channel) channel_size
    then record sub { channel = sub.channel ++ e ∷ [] }
    else sub

unfoldable pub publish : ℕ → Event → Hub → Hub
publish now e h =
    let e' = stamp now e in let h' = store e' h in record h' { subs = map (offer e') h'.subs }

-- The slot of the i-th newest event.
abbrev pub slot : Hub → ℕ → ℕ
slot h i = (h.head + ring_size - 1 - i) % ring_size

-- The loop of `Recent` from i on, with k slots left.
unfoldable pub collect : Hub → String → ℕ → ℕ → ℕ → List Event → List Event
collect h key n zero i result = result
collect h key n (suc k) i result =
    let e = h.ring (slot h i) in
    let rest = collect h key n k (suc i) (if is_hidden key e then result else result ++ e ∷ []) in
    if ltb (length result) n then rest else result

-- A negative n makes Go's `make` panic; n is not negative here.
unfoldable pub recent : String → ℕ → Hub → List Event
recent key n h = collect h key (if ltb h.len n then h.len else n) h.len 0 []

-- `Subscribe`, with the new subscription's address.
unfoldable pub subscribe : String → Hub → ℕ × Hub
subscribe key h = (
  h.fresh,
  record h {
    subs = record { address = h.fresh; key = key; channel = [] } ∷ h.subs;
    fresh = suc h.fresh;
  },
)

abbrev pub at_address : ℕ → Subscriber → Bool
at_address a sub = eqb sub.address a

-- `Close`; `none` is the panic of a second close of the channel.
unfoldable pub close : ℕ → Hub → Option Hub
close a h = elim (find (at_address a) h.subs) [
  | some _ ↦ some (record h { subs = select (λ sub. not (at_address a sub)) h.subs })
  | none ↦ none
]

abbrev pub rest_of : List Event → List Event
rest_of [] = []
rest_of (e ∷ l) = l

abbrev pub take_first : Subscriber → Subscriber
take_first sub = record sub { channel = rest_of sub.channel }

-- A receive on `Events()` of an open subscription; `none` is a channel with nothing in it yet.
unfoldable pub receive : ℕ → Hub → Option (Event × Hub)
receive a h = elim (find (at_address a) h.subs) [
  | none ↦ none
  | some sub ↦ elim (first sub.channel) [
    | none ↦ none
    | some e ↦ some (e, record h { subs = update (at_address a) take_first h.subs })
  ]
]
