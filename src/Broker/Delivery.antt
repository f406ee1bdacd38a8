-- ===== src/Broker/Delivery.antt =====
-- What a stream has heard of an event: it has the event or a reset in its queue, until it takes its
-- next entry.
use maeglagi.Base.{
  ℕ, ◌≡◌, refl, Equality, Bool, true, false, not, ◌&&◌, ◌||◌, Option, none, some, List, [], ◌∷◌,
  ◌++◌, map, arith, ◌==◌, nat_eq, list_eq, ==-refl, any, All,
}
use maeglagi.Broker.{SourceEventKey, SourceSubscription, accepts, reset, offer}
use maeglagi.Broker.Steps.{take_event, event_eq}

-- Null, which resets or reconnects, or the value itself.
abbrev pub told {ℓ} : {A : Type ℓ} ⦃e : Equality A⦄ → A → Option A → Bool
told a none = true
told a (some b) = b == a

pub any-append :
    {A : Type 0} (p : A → Bool) (xs ys : List A) → any p (xs ++ ys) ≡ (any p xs || any p ys)
any-append p [] ys = refl
any-append p (x ∷ xs) ys = ground (arith, any-append p xs ys)

-- The stream `h`, if it accepts the event, has it or a reset in its queue.
pub heard : ℕ → SourceEventKey → SourceSubscription → Bool
heard h event s = not (s.handle == h && accepts s event) || any (told event) s.queue

pub All-of :
    (P : SourceSubscription → Type 0) (f : SourceSubscription → SourceSubscription)
    (l : List SourceSubscription)
    → ((s : SourceSubscription) → P (f s))
    → All P (map f l)
All-of P f [] h = tt
All-of P f (s ∷ l) h = (h s, All-of P f l h)

pub All-keep :
    (P : SourceSubscription → Type 0) (f : SourceSubscription → SourceSubscription)
    (l : List SourceSubscription)
    → ((s : SourceSubscription) → P s → P (f s))
    → All P l
    → All P (map f l)
All-keep P f [] h a = tt
All-keep P f (s ∷ l) h a = (h s a.0, All-keep P f l h a.1)

module _ (h : ℕ) (event : SourceEventKey) where
  pub heard-reset : (s : SourceSubscription) → heard h event (reset s) ≡ true
  unfolding heard reset
  heard-reset s = ground arith

  pub heard-offer : (s : SourceSubscription) → heard h event (offer event s) ≡ true
  unfolding heard offer reset accepts
  heard-offer s = ground (arith, any-append (told event) s.queue (some event ∷ []), ==-refl event)

  pub heard-offer_other :
      (other : SourceEventKey) (s : SourceSubscription)
      → heard h event s ≡ true
      → heard h event (offer other s) ≡ true
  unfolding heard offer reset accepts
  heard-offer_other other s k = ground (arith, any-append (told event) s.queue (some other ∷ []))

  pub heard-take_event :
      (taker : ℕ) (s : SourceSubscription)
      → (taker == h) ≡ false
      → heard h event s ≡ true
      → heard h event (take_event taker s) ≡ true
  unfolding heard take_event accepts
  heard-take_event taker s ne k = ground arith

  pub heard_by_others : (s : SourceSubscription) → (s.handle == h) ≡ false → heard h event s ≡ true
  unfolding heard
  heard_by_others s ne = ground arith
