-- ===== src/Broker/Bounds.antt =====
-- Whatever happens, the queues stay within their sizes, and a stream is only ever offered events of
-- its own owner, workspace and sources.
use maeglagi.Base.{
  ℕ, ◌≤◌, ◌≡◌, refl, subst, ap, Bool, true, false, Option, none, some, List, [], ◌∷◌, ◌++◌, map,
  arith, ◌==◌, nat_eq, if_ind, drop, ltb, length, length-append, All, All-append, All-imp,
  All-select, inl, inr, Bool-cases, Option-cases,
}
use maeglagi.Base.Text.{Text}
use maeglagi.Broker.{
  Broker, SourceEventKey, SourceSubscription, Fetched, times_out, check_liveness, settled, fails,
  gone, message, queue_size, notification_queue_size, accepts, reset, subscribe, unsubscribe,
  reset_subscribers, drain_notifications, notify, terminated, stop, offer, interrupted, reconnected,
  dispatch, run_once,
}
use maeglagi.Broker.Steps.{
  Move, opens, closes, takes, notifies, ends, connects, runs, reconnects, stops, take_event, move,
  moves,
}

-- The reset, or an event that the stream accepts.
abbrev pub Admits : SourceSubscription → Option SourceEventKey → Type 0
Admits s none = Unit
Admits s (some event) = accepts s event ≡ true

pub record IsBounded (s : SourceSubscription) : Type 0 where
  pub size : length s.queue ≤ queue_size
  pub own : All (Admits s) s.queue

pub record IsValid (b : Broker) : Type 0 where
  pub size : length b.notifications ≤ notification_queue_size
  pub bounded : All IsBounded b.subscribers

All-map :
    (P : SourceSubscription → Type 0) (f : SourceSubscription → SourceSubscription)
    (l : List SourceSubscription)
    → ((s : SourceSubscription) → P s → P (f s))
    → All P l
    → All P (map f l)
All-map P f [] h a = tt
All-map P f (s ∷ l) h a = (h s a.0, All-map P f l h a.1)

reset-IsBounded : (s : SourceSubscription) → IsBounded s → IsBounded (reset s)
unfolding reset
reset-IsBounded s v = record { size = omega arith; own = (tt, tt) }

accepts_same :
    (s : SourceSubscription) (q : List (Option SourceEventKey)) (m : Option SourceEventKey)
    → Admits s m
    → Admits (record s { queue = q }) m
unfolding accepts
accepts_same s q none h = tt
accepts_same s q (some event) h = h

offer-IsBounded :
    (event : SourceEventKey) (s : SourceSubscription) → IsBounded s → IsBounded (offer event s)
unfolding offer
offer-IsBounded event s v = elim (Bool-cases (accepts s event)) [
  | inr other ↦ rw (other, offer) v
  | inl own ↦ elim (Bool-cases (ltb (length s.queue) queue_size)) [
    | inr full ↦ rw (own, full, offer) (reset-IsBounded s v)
    | inl room ↦
        rw (own, room, offer)
          (record {
            size = ground (arith, length-append s.queue (some event ∷ []));
            own =
                All-imp (Admits s) _ (accepts_same s (s.queue ++ some event ∷ [])) _
                  (All-append (Admits s) s.queue (some event ∷ []) v.own (own, tt));
          })
  ]
]

take_event-IsBounded :
    (handle : ℕ) (s : SourceSubscription) → IsBounded s → IsBounded (take_event handle s)
unfolding take_event
take_event-IsBounded handle s v =
    if_ind IsBounded (s.handle == handle) (popped s.queue v.size v.own) v
  where
    popped :
        (q : List (Option SourceEventKey))
        → length q ≤ queue_size
        → All (Admits s) q
        → IsBounded (record s { queue = drop 1 q })
    popped [] h a = record { size = omega arith; own = tt }
    popped (m ∷ q) h a = record {
      size = omega (arith, h);
      own = All-imp (Admits s) _ (accepts_same s q) q a.1;
    }

reset_subscribers-IsValid : (b : Broker) → IsValid b → IsValid (reset_subscribers b)
unfolding reset_subscribers
reset_subscribers-IsValid b v = record {
  size = v.size;
  bounded = All-map IsBounded reset b.subscribers reset-IsBounded v.bounded;
}

emptied :
    (b : Broker) (healthy : Bool)
    → IsValid b
    → IsValid (record b { notifications = []; healthy = healthy })
emptied b healthy v = record { size = omega arith; bounded = v.bounded }

notify-IsValid : (value : Text) (b : Broker) → IsValid b → IsValid (notify value b)
unfolding notify drain_notifications
notify-IsValid value b v =
    elim (Bool-cases (ltb (length b.notifications) notification_queue_size)) [
      | inl room ↦
          rw (room, notify)
            (record {
              size = ground (arith, length-append b.notifications (some value ∷ []));
              bounded = v.bounded;
            })
      | inr full ↦
          rw (full, notify) (emptied (reset_subscribers b) _ (reset_subscribers-IsValid b v))
    ]

subscribe-IsValid :
    (handle owner_id workspace_id : ℕ) (source_ids : List ℕ) (b : Broker)
    → IsValid b
    → {r : SourceSubscription × Broker}
    → subscribe handle owner_id workspace_id source_ids b ≡ some r
    → IsValid r.1
unfolding subscribe
subscribe-IsValid handle owner_id workspace_id source_ids b v {r} e = elim (Bool-cases b.healthy) [
  | inl well ↦ subst IsValid (ap second (rw (well, subscribe) at e)) (record {
    size = v.size;
    bounded =
        All-append IsBounded b.subscribers _ v.bounded
          (record { size = omega arith; own = tt }, tt);
  })
  | inr ill ↦ let q : none ≡ some r = rw (ill, subscribe) at e in cc q
]
  where
    second : Option (SourceSubscription × Broker) → Broker
    second none = b
    second (some (_, after)) = after

interrupted-IsValid : (b : Broker) → IsValid b → IsValid (interrupted b)
unfolding interrupted drain_notifications
interrupted-IsValid b v = emptied _ _ (
    reset_subscribers-IsValid (record b { healthy = false })
      (record { size = v.size; bounded = v.bounded }))

module _ (MessageId : Type 0) (parse_id : Text → Option MessageId)
    (fetch : MessageId → Fetched) where
  check_liveness-IsValid :
      (alive : Bool) (b : Broker) → IsValid b → IsValid (check_liveness alive b)
  unfolding check_liveness terminated drain_notifications
  check_liveness-IsValid true b v = v
  check_liveness-IsValid false b v = record { size = omega arith; bounded = v.bounded }

  dispatched :
      (alive : Bool) (value : Text) (b : Broker)
      → IsValid b
      → IsValid (settled alive b (dispatch MessageId parse_id fetch value b))
  unfolding dispatch settled
  dispatched alive value b v = elim (Option-cases (parse_id value)) [
    | inl malformed ↦ rw (malformed, dispatch) v
    | inr (parsed_id, p) ↦ go parsed_id p (fetch parsed_id) refl
  ]
    where
      go :
          (parsed_id : MessageId)
          → parse_id value ≡ some parsed_id
          → (f : Fetched) → fetch parsed_id ≡ f
          → IsValid (settled alive b (dispatch MessageId parse_id fetch value b))
      go parsed_id p fails f = rw (p, f, dispatch) (interrupted-IsValid b v)
      go parsed_id p times_out f = rw (p, f, dispatch) (check_liveness-IsValid alive b v)
      go parsed_id p gone f = rw (p, f, dispatch) (reset_subscribers-IsValid b v)
      go parsed_id p (message event) f =
          rw (p, f, dispatch)
            (record {
              size = v.size;
              bounded =
                  All-map IsBounded (offer event) b.subscribers (offer-IsBounded event) v.bounded;
            })

  run_once-IsValid :
      (alive : Bool) (b : Broker) → IsValid b → IsValid (run_once MessageId parse_id fetch alive b)
  unfolding run_once
  run_once-IsValid alive b v = go b.notifications refl
    where
      go :
          (q : List (Option Text))
          → b.notifications ≡ q
          → IsValid (run_once MessageId parse_id fetch alive b)
      go [] e = rw (e, run_once) (check_liveness-IsValid alive b v)
      go (none ∷ rest) e =
          rw (e, run_once)
            (interrupted-IsValid (record b { notifications = rest })
              (record { size = omega (arith, ap length e, v.size); bounded = v.bounded }))
      go (some value ∷ rest) e =
          rw (e, run_once)
            (dispatched alive value (record b { notifications = rest })
              (record { size = omega (arith, ap length e, v.size); bounded = v.bounded }))

  move-IsValid : (m : Move) (b : Broker) → IsValid b → IsValid (move MessageId parse_id fetch m b)
  unfolding move unsubscribe terminated drain_notifications stop reconnected
  move-IsValid (opens handle owner_id workspace_id source_ids) b v =
      elim (Option-cases (subscribe handle owner_id workspace_id source_ids b)) [
        | inl refused ↦ rw (refused, move) v
        | inr (r, e) ↦
            rw (e, move) (subscribe-IsValid handle owner_id workspace_id source_ids b v e)
      ]
  move-IsValid (closes handle) b v = record {
    size = v.size;
    bounded = All-select IsBounded _ b.subscribers v.bounded;
  }
  move-IsValid (takes handle) b v = record {
    size = v.size;
    bounded =
        All-map IsBounded (take_event handle) b.subscribers (take_event-IsBounded handle) v.bounded;
  }
  move-IsValid (notifies value) b v = notify-IsValid value b v
  move-IsValid ends b v = record { size = omega arith; bounded = v.bounded }
  move-IsValid connects b v = record { size = v.size; bounded = v.bounded }
  move-IsValid (runs alive) b v = run_once-IsValid alive b v
  move-IsValid reconnects b v =
      reset_subscribers-IsValid (record b { healthy = true })
        (record { size = v.size; bounded = v.bounded })
  move-IsValid stops b v =
      reset_subscribers-IsValid (record b { healthy = false })
        (record { size = v.size; bounded = v.bounded })

  -- From a valid broker, whatever happens in whatever order, at most 2048 notifications wait, no
  -- stream's queue has more than 64 entries, and each entry is the reset or an event that the stream
  -- accepts.
  pub moves-IsValid :
      (ms : List Move) (b : Broker) → IsValid b → IsValid (moves MessageId parse_id fetch ms b)
  unfolding moves
  moves-IsValid [] b v = v
  moves-IsValid (m ∷ ms) b v =
      moves-IsValid ms (move MessageId parse_id fetch m b) (move-IsValid m b v)
