-- ===== src/Broker.antt =====
-- The fanout of source events to the streams of one API process:
-- backend/app/api/workspaces/source_event_broker.py. The log of messages, pgmq in PostgreSQL, is a
-- parameter, and so is the parsing of a notification.
pub mod Steps
pub mod Bounds
pub mod Delivery
pub mod Lossless
mod Tests
use maeglagi.Base.{
  ℕ, Bool, true, false, not, ◌&&◌, Option, none, some, List, [], ◌∷◌, ◌++◌, map, ◌==◌, nat_eq, ltb,
  length, if◌then◌else◌, contains, select,
}
use maeglagi.Base.Text.{Text}

-- QUEUE_SIZE and NOTIFICATION_QUEUE_SIZE
abbrev pub queue_size : ℕ
queue_size = 64

abbrev pub notification_queue_size : ℕ
notification_queue_size = 2048

pub record SourceEventKey : Type 0 where
  pub owner_id : ℕ
  pub workspace_id : ℕ
  pub source_id : ℕ

-- `handle` is the identity of the object; null in the queue is the reset, on which the stream ends.
pub record SourceSubscription : Type 0 where
  pub handle : ℕ
  pub owner_id : ℕ
  pub workspace_id : ℕ
  pub source_ids : List ℕ
  pub queue : List (Option SourceEventKey)

pub record Broker : Type 0 where
  pub notifications : List (Option Text)
  pub subscribers : List SourceSubscription
  pub healthy : Bool

pub accepts : SourceSubscription → SourceEventKey → Bool
accepts s event =
    s.owner_id == event.owner_id
    && s.workspace_id == event.workspace_id
    && contains event.source_id s.source_ids

-- The queue is emptied, and holds the reset alone.
pub reset : SourceSubscription → SourceSubscription
reset s = record s { queue = none ∷ [] }

-- A new broker, before `start`.
abbrev pub created : Broker
created = record { notifications = []; subscribers = []; healthy = false }

-- None is the RuntimeError of an unhealthy broker. `handle` is that of the new object.
pub subscribe : ℕ → ℕ → ℕ → List ℕ → Broker → Option (SourceSubscription × Broker)
subscribe handle owner_id workspace_id source_ids b =
    let s : SourceSubscription = record {
      handle = handle;
      owner_id = owner_id;
      workspace_id = workspace_id;
      source_ids = source_ids;
      queue = [];
    } in
    if not b.healthy then none else some (s, record b { subscribers = b.subscribers ++ s ∷ [] })

pub unsubscribe : ℕ → Broker → Broker
unsubscribe handle b = record b {
  subscribers = select (λ s. not (s.handle == handle)) b.subscribers;
}

pub reset_subscribers : Broker → Broker
unfolding reset
reset_subscribers b = record b { subscribers = map reset b.subscribers }

pub drain_notifications : Broker → Broker
drain_notifications b = record b { notifications = [] }

-- A notification that does not fit is dropped with all that wait, and every stream is reset.
pub notify : Text → Broker → Broker
unfolding reset_subscribers drain_notifications
notify value b =
    if ltb (length b.notifications) notification_queue_size
    then record b { notifications = b.notifications ++ some value ∷ [] }
    else drain_notifications (reset_subscribers b)

pub terminated : Broker → Broker
unfolding drain_notifications
terminated b = record (drain_notifications b) { notifications = none ∷ [] }

-- `stop`, once the task is cancelled.
pub stop : Broker → Broker
unfolding reset_subscribers
stop b = reset_subscribers (record b { healthy = false })

-- An event for one stream: a full queue is reset.
pub offer : SourceEventKey → SourceSubscription → SourceSubscription
unfolding accepts reset
offer event s =
    if not (accepts s event)
    then s
    else if ltb (length s.queue) queue_size
    then record s { queue = s.queue ++ some event ∷ [] }
    else reset s

-- What reading a message of the log comes to: an exception (of the read or of the decoding), the
-- TimeoutError of the read, no row, or an event.
pub data Fetched : Type 0 where
  fails times_out gone : Fetched
  message : SourceEventKey → Fetched

-- What `_dispatch` comes to: it returns, or raises TimeoutError, or another exception.
pub data Dispatched : Type 0 where
  handled : Broker → Dispatched
  late broken : Dispatched

-- The part of `_run` that handles an interruption, up to the reconnect.
pub interrupted : Broker → Broker
unfolding reset_subscribers drain_notifications
interrupted b = drain_notifications (reset_subscribers (record b { healthy = false }))

-- `_connect`, and the reset that follows a reconnect.
pub reconnected : Broker → Broker
unfolding reset_subscribers
reconnected b = reset_subscribers (record b { healthy = true })

-- The branch of `_run` for a TimeoutError: whether the connection answers `SELECT 1`.
pub check_liveness : Bool → Broker → Broker
unfolding terminated
check_liveness alive b = if alive then b else terminated b

-- What `_run` does after the dispatch of a notification that was taken.
abbrev pub settled : Bool → Broker → Dispatched → Broker
unfolding check_liveness interrupted
settled alive taken (handled after) = after
settled alive taken late = check_liveness alive taken
settled alive taken broken = interrupted taken

module _ (MessageId : Type 0) (parse_id : Text → Option MessageId)
    (fetch : MessageId → Fetched) where
  pub dispatch : Text → Broker → Dispatched
  unfolding reset_subscribers offer
  dispatch message_id b = elim (parse_id message_id) [
    | none ↦ handled b
    | some parsed_id ↦ elim (fetch parsed_id) [
      | fails ↦ broken
      | times_out ↦ late
      | gone ↦ handled (reset_subscribers b)
      | message event ↦ handled (record b { subscribers = map (offer event) b.subscribers })
    ]
  ]

  -- One round of the loop of `_run`, up to the reconnect of an interruption: where nothing waits, the
  -- wait times out.
  pub run_once : Bool → Broker → Broker
  unfolding dispatch interrupted check_liveness
  run_once alive b = elim b.notifications [
    | [] ↦ check_liveness alive b
    | none ∷ rest ↦ interrupted (record b { notifications = rest })
    | some message_id ∷ rest ↦
        let taken = record b { notifications = rest } in
        settled alive taken (dispatch message_id taken)
  ]
