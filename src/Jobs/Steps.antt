-- ===== src/Jobs/Steps.antt =====
-- The queue as a transition system. Any number of executors claim, renew and finish in any order;
-- the API enqueues, and an executor reconciles at its start. Time passes between the steps, and a
-- claim may be renewed or finished late, twice or never: a crash is a claim that takes no step.
use maeglagi.Base.{ℕ, ◌+◌, Bool, Option, none, some, List, [], ◌∷◌}
use maeglagi.States.{SourceStatus, ProcessingStage}
use maeglagi.Jobs.{Job, Claim, enqueue_source, claim_job, renew}
use maeglagi.Jobs.Execution.{Attempt, execute_claim}
use maeglagi.Jobs.Recovery.{SourceRow, recover_missing_jobs}

pub record Held : Type 0 where
  pub owner : ℕ
  pub claim : Claim

pub record Queue : Type 0 where
  pub now : ℕ
  pub jobs : List Job
  -- The claims that were handed out, the newest first.
  pub held : List Held

abbrev pub start : Queue
start = record { now = 0; jobs = []; held = [] }

abbrev pub hand_out : ℕ → Option Claim → List Held → List Held
hand_out owner none held = held
hand_out owner (some c) held = record { owner = owner; claim = c } ∷ held

-- `h` is one of the claims of `hs`.
pub data Among (h : Held) : List Held → Type 0 where
  newest : {hs : List Held} → Among h (h ∷ hs)
  older : {g : Held} {hs : List Held} → Among h hs → Among h (g ∷ hs)

pub Among-cons {κ} :
    (P : Held → Type κ) (h : Held) (hs : List Held)
    → P h
    → ((g : Held) → Among g hs → P g)
    → (g : Held) → Among g (h ∷ hs)
    → P g
Among-cons P h hs here there g newest = here
Among-cons P h hs here there g (older m) = there g m

pub data Step : Queue → Queue → Type 0 where
  wait : (q : Queue) (seconds : ℕ) → Step q (record q { now = q.now + seconds })
  enqueue :
      (q : Queue) (source_id : ℕ) (stage : ProcessingStage) (supersede : Bool)
      → Step q (record q { jobs = enqueue_source source_id stage supersede q.now q.jobs })
  claim :
      (q : Queue) (owner lease_seconds : ℕ) (locked : ℕ → Bool)
      → Step q (record q {
        jobs = (claim_job owner lease_seconds locked q.now q.jobs).1;
        held = hand_out owner (claim_job owner lease_seconds locked q.now q.jobs).0 q.held;
      })
  beat :
      (q : Queue) (h : Held) (seconds : ℕ)
      → Among h q.held
      → Step q (record q {
        jobs = (renew h.claim.source_id h.owner h.claim.generation seconds q.now q.jobs).1;
      })
  execute :
      (q : Queue) (h : Held) (status_of : ℕ → Option SourceStatus) (attempt : ℕ → Bool → Attempt)
      → Among h q.held
      → Step q (record q {
        jobs =
            (execute_claim h.claim.source_id h.owner h.claim.generation h.claim.attempts status_of
              attempt q.now q.jobs).1;
      })
  recover :
      (q : Queue) (sources : List SourceRow)
      → Step q (record q { jobs = (recover_missing_jobs q.now sources q.jobs).1 })

pub data Reach : Queue → Type 0 where
  begin : Reach start
  next : {q r : Queue} → Reach q → Step q r → Reach r
