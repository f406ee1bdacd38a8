-- ===== src/Broker/Lossless.antt =====
-- No notification whose message can be read is lost between PostgreSQL and a stream, whatever moves
-- follow. One whose read times out on a connection that still answers is lost without a reset.
use maeglagi.Base.{
  ℕ, ◌≡◌, refl, subst, ◌⊎◌, inl, inr, Bool, true, false, Option, none, some, List, [], ◌∷◌, arith,
  ◌==◌, nat_eq, list_eq, list_beq_iff, ==-refl, any, ltb, length, All, All-append, All-select,
  Bool-cases, Option-cases,
}
use maeglagi.Base.Text.{Text}
use maeglagi.Broker.{
  Broker, SourceEventKey, SourceSubscription, Fetched, times_out, check_liveness, settled, fails,
  gone, message, notification_queue_size, reset, subscribe, unsubscribe, reset_subscribers,
  drain_notifications, notify, terminated, stop, offer, interrupted, reconnected, dispatch,
  run_once,
}
use maeglagi.Broker.Steps.{
  Move, opens, closes, takes, notifies, ends, connects, runs, reconnects, stops, take_event, move,
  moves,
}
use maeglagi.Broker.Delivery.{
  told, heard, any-append, All-of, All-keep, heard-reset, heard-offer, heard-offer_other,
  heard-take_event, heard_by_others,
}

-- The move neither takes an entry of the stream nor opens a stream with its identity.
abbrev pub Leaves : ℕ → Move → Type 0
Leaves h (opens handle owner_id workspace_id source_ids) = (handle == h) ≡ false
Leaves h (takes handle) = (handle == h) ≡ false
Leaves h _ = Unit

module _ (h : ℕ) (event : SourceEventKey) (value : Text) where
  abbrev Heard : List SourceSubscription → Type 0
  Heard subscribers = All (λ s. heard h event s ≡ true) subscribers

  -- The notification waits, perhaps behind the end of the connection, or the stream has been told.
  abbrev pub IsKept : Broker → Type 0
  IsKept b = (any (told value) b.notifications ≡ true) ⊎ Heard b.subscribers

  reset_subscribers-Heard : (b : Broker) → Heard (reset_subscribers b).subscribers
  unfolding reset_subscribers
  reset_subscribers-Heard b =
      All-of (λ s. heard h event s ≡ true) reset b.subscribers (heard-reset h event)

  interrupted-IsKept : (b : Broker) → IsKept (interrupted b)
  unfolding interrupted drain_notifications
  interrupted-IsKept b = inr (reset_subscribers-Heard (record b { healthy = false }))

  notify-IsKept : (other : Text) (b : Broker) → IsKept b → IsKept (notify other b)
  unfolding notify drain_notifications
  notify-IsKept other b k =
      elim (Bool-cases (ltb (length b.notifications) notification_queue_size)) [
        | inr full ↦ rw (full, notify) (inr (reset_subscribers-Heard b))
        | inl room ↦
            rw (room, notify)
              (elim k [
                | inr said ↦ inr said
                | inl waits ↦ inl (
                    ground
                      (arith, any-append (told value) b.notifications (some other ∷ []), waits))
              ])
      ]

  notified : (b : Broker) → IsKept (notify value b)
  unfolding notify drain_notifications
  notified b = elim (Bool-cases (ltb (length b.notifications) notification_queue_size)) [
    | inr full ↦ rw (full, notify) (inr (reset_subscribers-Heard b))
    | inl room ↦
        rw (room, notify)
          (inl (
            ground
              (arith, any-append (told value) b.notifications (some value ∷ []), ==-refl value)))
  ]

  module _ (MessageId : Type 0) (parse_id : Text → Option MessageId) (fetch : MessageId → Fetched)
      (parsed_id : MessageId) (parses : parse_id value ≡ some parsed_id)
      (stored : fetch parsed_id ≡ message event) where
    check_liveness-IsKept : (alive : Bool) (b : Broker) → IsKept b → IsKept (check_liveness alive b)
    unfolding check_liveness terminated drain_notifications
    check_liveness-IsKept true b k = k
    check_liveness-IsKept false b k = inl refl

    -- Handling another notification loses nothing, and the value itself tells every stream.
    dispatched :
        (alive : Bool) (other : Text) (b : Broker)
        → IsKept b ⊎ (other ≡ value)
        → IsKept (settled alive b (dispatch MessageId parse_id fetch other b))
    unfolding dispatch settled
    dispatched alive other b (inr same) =
        rw (same, parses, stored, dispatch)
          (inr (
            All-of (λ s. heard h event s ≡ true) (offer event) b.subscribers (heard-offer h event)))
    dispatched alive other b (inl k) = elim (Option-cases (parse_id other)) [
      | inl malformed ↦ rw (malformed, dispatch) k
      | inr (id, p) ↦ go id p (fetch id) refl
    ]
      where
        go :
            (id : MessageId)
            → parse_id other ≡ some id
            → (f : Fetched) → fetch id ≡ f
            → IsKept (settled alive b (dispatch MessageId parse_id fetch other b))
        go id p fails f = rw (p, f, dispatch) (interrupted-IsKept b)
        go id p times_out f = rw (p, f, dispatch) (check_liveness-IsKept alive b k)
        go id p gone f = rw (p, f, dispatch) (inr (reset_subscribers-Heard b))
        go id p (message e) f =
            rw (p, f, dispatch)
              (elim k [
                | inl waits ↦ inl waits
                | inr said ↦ inr (
                    All-keep (λ s. heard h event s ≡ true) (offer e) b.subscribers
                      (heard-offer_other h event e) said)
              ])

    run_once-IsKept :
        (alive : Bool) (b : Broker) → IsKept b → IsKept (run_once MessageId parse_id fetch alive b)
    unfolding run_once
    run_once-IsKept alive b k = go b.notifications refl
      where
        remains :
            (other : Text) (rest : List (Option Text))
            → b.notifications ≡ some other ∷ rest
            → IsKept (record b { notifications = rest }) ⊎ (other ≡ value)
        remains other rest e = elim k [
          | inr said ↦ inl (inr said)
          | inl waits ↦ elim (Bool-cases (other == value)) [
            | inl same ↦ inr ((list_beq_iff other value).0 same)
            | inr different ↦
                let w = subst (λ q. any (told value) q ≡ true) e waits in
                inl (inl (rw different at w))
          ]
        ]

        go :
            (q : List (Option Text))
            → b.notifications ≡ q
            → IsKept (run_once MessageId parse_id fetch alive b)
        go [] e = rw (e, run_once) (check_liveness-IsKept alive b k)
        go (none ∷ rest) e =
            rw (e, run_once) (interrupted-IsKept (record b { notifications = rest }))
        go (some other ∷ rest) e =
            rw (e, run_once)
              (dispatched alive other (record b { notifications = rest }) (remains other rest e))

    move-IsKept :
        (m : Move) (b : Broker) → Leaves h m → IsKept b → IsKept (move MessageId parse_id fetch m b)
    unfolding move subscribe unsubscribe terminated drain_notifications stop reconnected
    move-IsKept (opens handle owner_id workspace_id source_ids) b ne k =
        elim (Bool-cases b.healthy) [
          | inr ill ↦ rw (ill, subscribe, move) k
          | inl well ↦
              rw (well, subscribe, move)
                (elim k [
                  | inl waits ↦ inl waits
                  | inr said ↦ inr (
                      All-append (λ s. heard h event s ≡ true) b.subscribers _ said
                        (heard_by_others h event _ ne, tt))
                ])
        ]
    move-IsKept (closes handle) b l k = elim k [
      | inl waits ↦ inl waits
      | inr said ↦ inr (All-select (λ s. heard h event s ≡ true) _ b.subscribers said)
    ]
    move-IsKept (takes handle) b ne k = elim k [
      | inl waits ↦ inl waits
      | inr said ↦ inr (
          All-keep (λ s. heard h event s ≡ true) (take_event handle) b.subscribers
            (λ s a. heard-take_event h event handle s ne a) said)
    ]
    move-IsKept (notifies other) b l k = notify-IsKept other b k
    move-IsKept ends b l k = inl refl
    move-IsKept connects b l k = k
    move-IsKept (runs alive) b l k = run_once-IsKept alive b k
    move-IsKept reconnects b l k = inr (reset_subscribers-Heard (record b { healthy = true }))
    move-IsKept stops b l k = inr (reset_subscribers-Heard (record b { healthy = false }))

    moves-IsKept :
        (ms : List Move) (b : Broker)
        → All (Leaves h) ms
        → IsKept b
        → IsKept (moves MessageId parse_id fetch ms b)
    unfolding moves
    moves-IsKept [] b l k = k
    moves-IsKept (m ∷ ms) b l k =
        moves-IsKept ms (move MessageId parse_id fetch m b) l.1 (move-IsKept m b l.0 k)

    -- Once PostgreSQL notifies of an event whose message a read gives, and so neither fails nor times
    -- out, then after any moves that leave a stream's queue and identity alone, other reads that fail or
    -- time out among them, either the notification still waits, or the end of the connection does, or
    -- that stream, if it accepts the event, has it or a reset in its queue.
    pub notify-moves-IsKept :
        (ms : List Move) (b : Broker)
        → All (Leaves h) ms
        → IsKept (moves MessageId parse_id fetch ms (notify value b))
    notify-moves-IsKept ms b l = moves-IsKept ms (notify value b) l (notified b)
