-- ===== src/Broker/Tests.antt =====
-- Two streams of one workspace, and an event for the second.
use maeglagi.Base.{
  arith, ℕ, zero, suc, ◌≡◌, refl, true, Option, none, some, List, [], ◌∷◌, list_eq, nat_eq, map,
}
use maeglagi.Base.Text.{Text}
use maeglagi.Broker.{
  Broker, SourceEventKey, Fetched, fails, times_out, gone, message, created, notify, subscribe,
  run_once,
}
use maeglagi.Broker.Steps.{Move, opens, takes, notifies, ends, connects, runs, moves}
use maeglagi.Broker.Bounds.{IsValid, moves-IsValid}
use maeglagi.Broker.Lossless.{IsKept, notify-moves-IsKept}

abbrev event : SourceEventKey
event = record { owner_id = 1; workspace_id = 2; source_id = 5 }

abbrev parse_id : Text → Option ℕ
parse_id [] = none
parse_id (c ∷ _) = some c

abbrev log : ℕ → Fetched
log zero = fails
log (suc zero) = gone
log (suc (suc zero)) = times_out
log (suc (suc (suc n))) = message event

abbrev opening : List Move
opening = connects ∷ opens 10 1 2 (4 ∷ []) ∷ opens 11 1 2 (5 ∷ 4 ∷ []) ∷ []

abbrev opened : Broker
opened = moves ℕ parse_id log opening created

abbrev seven : Text
seven = 7 ∷ []

abbrev following : List Move
following = notifies (1 ∷ []) ∷ takes 10 ∷ runs true ∷ ends ∷ opens 12 1 2 (5 ∷ []) ∷ []

event_is_delivered :
    map (λ s. s.queue) (moves ℕ parse_id log (runs true ∷ []) (notify seven opened)).subscribers
    ≡ [] ∷ (some event ∷ []) ∷ []
unfolding moves notify run_once subscribe
event_is_delivered = refl

-- The read of the message times out, the connection still answers: neither stream hears of it.
late_read_is_lost : moves ℕ parse_id log (runs true ∷ []) (notify (2 ∷ []) opened) ≡ opened
unfolding moves notify run_once subscribe
late_read_is_lost = refl

created-IsValid : IsValid created
created-IsValid = record { size = omega arith; bounded = tt }

moves-IsValid_example : IsValid opened
moves-IsValid_example = moves-IsValid ℕ parse_id log opening created created-IsValid

notify-moves-IsKept_example :
    IsKept 11 event seven (moves ℕ parse_id log following (notify seven opened))
notify-moves-IsKept_example =
    notify-moves-IsKept 11 event seven ℕ parse_id log 7 refl refl following opened
      (tt, (refl, (tt, (tt, (refl, tt)))))
