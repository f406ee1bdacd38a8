-- ===== src/Broker/Steps.antt =====
-- The broker as a machine: the moves of its callers, its task and the streams, in any order.
use maeglagi.Base.{
  ℕ, ◌≡◌, ◌↔◌, Equality, Bool, true, ◌&&◌, Option, none, some, List, [], ◌∷◌, map, arith, ◌==◌,
  nat_eq, if◌then◌else◌, drop,
}
use maeglagi.Base.Text.{Text}
use maeglagi.Broker.{
  Broker, SourceEventKey, SourceSubscription, Fetched, subscribe, unsubscribe, notify, terminated,
  stop, reconnected, run_once,
}

abbrev pub event_beq : SourceEventKey → SourceEventKey → Bool
event_beq a b =
    a.owner_id == b.owner_id && a.workspace_id == b.workspace_id && a.source_id == b.source_id

pub event_beq_iff : (a b : SourceEventKey) → (event_beq a b ≡ true) ↔ (a ≡ b)
event_beq_iff a b = ground arith

instance abbrev pub event_eq : Equality SourceEventKey
event_eq = record { same = event_beq; same_iff = event_beq_iff }

-- What may happen: a stream opens, closes or takes its next event, PostgreSQL notifies or closes the
-- connection, the task connects, makes a round of its loop (on a connection that would answer or not),
-- reconnects or is stopped.
pub data Move : Type 0 where
  opens : ℕ → ℕ → ℕ → List ℕ → Move
  closes : ℕ → Move
  takes : ℕ → Move
  notifies : Text → Move
  runs : Bool → Move
  ends connects reconnects stops : Move

-- `subscription.queue.get()`
unfoldable pub take_event : ℕ → SourceSubscription → SourceSubscription
take_event handle s = if s.handle == handle then record s { queue = drop 1 s.queue } else s

module _ (MessageId : Type 0) (parse_id : Text → Option MessageId)
    (fetch : MessageId → Fetched) where
  unfoldable pub move : Move → Broker → Broker
  unfolding take_event
  move (opens handle owner_id workspace_id source_ids) b =
      elim (subscribe handle owner_id workspace_id source_ids b) [
        | none ↦ b
        | some (_, after) ↦ after
      ]
  move (closes handle) b = unsubscribe handle b
  move (takes handle) b = record b { subscribers = map (take_event handle) b.subscribers }
  move (notifies value) b = notify value b
  move ends b = terminated b
  move connects b = record b { healthy = true }
  move (runs alive) b = run_once MessageId parse_id fetch alive b
  move reconnects b = reconnected b
  move stops b = stop b

  unfoldable pub moves : List Move → Broker → Broker
  unfolding move
  moves [] b = b
  moves (m ∷ ms) b = moves ms (move m b)
