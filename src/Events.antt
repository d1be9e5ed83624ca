-- ===== src/Events.antt =====
-- internal/events/events.go: the hub of the events. A channel is a number; its queue holds the messages that its subscriber has not
-- taken. The JSON text of a value is `some`, or none where encoding/json fails. Go ranges over the clients in any
-- order, which makes no difference.
pub mod Safety
use llama_proxy.Prelude.{
  ℕ, ◌+◌, Bool, true, false, Option, none, some, List, [], ◌∷◌, ◌++◌, Text, codes, length,
  if◌then◌else◌, ltb, ◌==◌,
}

abbrev pub capacity : ℕ
capacity = 64

-- The clients with their queues, the channels that were closed, and the number of the next channel.
pub record EventHub : Type 0 where
  pub clients : List (ℕ × List Text)
  pub closed : List ℕ
  pub next : ℕ

abbrev pub new_hub : EventHub
new_hub = record { clients = []; closed = []; next = 0 }

unfoldable pub subscribe : EventHub → EventHub × ℕ
subscribe h = (record h { clients = h.clients ++ (h.next, []) ∷ []; next = h.next + 1 }, h.next)

unfoldable pub is_client : ℕ → List (ℕ × List Text) → Bool
is_client ch [] = false
is_client ch ((c, q) ∷ clients) = if c == ch then true else is_client ch clients

unfoldable pub drop_client : ℕ → List (ℕ × List Text) → List (ℕ × List Text)
drop_client ch [] = []
drop_client ch ((c, q) ∷ clients) =
    let rest = drop_client ch clients in if c == ch then rest else (c, q) ∷ rest

unfoldable pub unsubscribe : EventHub → ℕ → EventHub
unfolding is_client drop_client
unsubscribe h ch =
    if is_client ch h.clients
    then record h { clients = drop_client ch h.clients; closed = ch ∷ h.closed }
    else h

-- A send that does not block.
abbrev pub offer : Text → List Text → List Text
offer msg q = if ltb (length q) capacity then q ++ msg ∷ [] else q

unfoldable pub offer_all : Text → List (ℕ × List Text) → List (ℕ × List Text)
offer_all msg [] = []
offer_all msg ((c, q) ∷ clients) = (c, offer msg q) ∷ offer_all msg clients

unfoldable pub broadcast : EventHub → Option Text → EventHub
unfolding offer_all
broadcast h none = h
broadcast h (some msg) = record h { clients = offer_all msg h.clients }

abbrev pub typed_message : Text → Text → Text
typed_message event_type json =
    codes "event: " ++ (event_type ++ (10 ∷ (codes "data: " ++ (json ++ (10 ∷ 10 ∷ [])))))

unfoldable pub broadcast_with_type : EventHub → Text → Option Text → EventHub
unfolding broadcast
broadcast_with_type h event_type none = h
broadcast_with_type h event_type (some json) = broadcast h (some (typed_message event_type json))

-- The subscriber takes a message.
unfoldable pub take_message : ℕ → List (ℕ × List Text) → List (ℕ × List Text)
take_message ch [] = []
take_message ch ((c, q) ∷ clients) =
    let rest = take_message ch clients in
    let left : List Text = elim q [ [] ↦ [] | m ∷ ms ↦ ms ] in
    if c == ch then (c, left) ∷ clients else (c, q) ∷ rest
