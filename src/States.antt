-- ===== src/States.antt =====
-- The workflow values of a source: `SourceStatus`, `ReviewState` and `ProcessingStage` of
-- backend/app/modules/workspaces/domain/source_state.py, with their `==`.
use maeglagi.Base.{ℕ, ◌≡◌, ◌↔◌, Equality, true, nat_beq, arith}

pub data SourceStatus : Type 0 where
  queued enqueue_pending processing awaiting_review awaiting_agent succeeded failed : SourceStatus

pub data ReviewState : Type 0 where
  transcribing awaiting_review confirmed : ReviewState

pub data ProcessingStage : Type 0 where
  uploaded transcribing awaiting_review awaiting_agent confirmed : ProcessingStage
  analyzing graphing completed : ProcessingStage

abbrev pub status_rank : SourceStatus → ℕ
status_rank SourceStatus.queued = 0
status_rank SourceStatus.enqueue_pending = 1
status_rank SourceStatus.processing = 2
status_rank SourceStatus.awaiting_review = 3
status_rank SourceStatus.awaiting_agent = 4
status_rank SourceStatus.succeeded = 5
status_rank SourceStatus.failed = 6

abbrev pub review_rank : ReviewState → ℕ
review_rank ReviewState.transcribing = 0
review_rank ReviewState.awaiting_review = 1
review_rank ReviewState.confirmed = 2

abbrev pub stage_rank : ProcessingStage → ℕ
stage_rank ProcessingStage.uploaded = 0
stage_rank ProcessingStage.transcribing = 1
stage_rank ProcessingStage.awaiting_review = 2
stage_rank ProcessingStage.awaiting_agent = 3
stage_rank ProcessingStage.confirmed = 4
stage_rank ProcessingStage.analyzing = 5
stage_rank ProcessingStage.graphing = 6
stage_rank ProcessingStage.completed = 7

pub status_rank_iff :
    (a b : SourceStatus) → (nat_beq (status_rank a) (status_rank b) ≡ true) ↔ (a ≡ b)
status_rank_iff a b = ground arith

pub review_rank_iff :
    (a b : ReviewState) → (nat_beq (review_rank a) (review_rank b) ≡ true) ↔ (a ≡ b)
review_rank_iff a b = ground arith

pub stage_rank_iff :
    (a b : ProcessingStage) → (nat_beq (stage_rank a) (stage_rank b) ≡ true) ↔ (a ≡ b)
stage_rank_iff a b = ground arith

instance abbrev pub status_eq : Equality SourceStatus
status_eq = record {
  same = λ a b. nat_beq (status_rank a) (status_rank b);
  same_iff = status_rank_iff;
}

instance abbrev pub review_eq : Equality ReviewState
review_eq = record {
  same = λ a b. nat_beq (review_rank a) (review_rank b);
  same_iff = review_rank_iff;
}

instance abbrev pub stage_eq : Equality ProcessingStage
stage_eq = record { same = λ a b. nat_beq (stage_rank a) (stage_rank b); same_iff = stage_rank_iff }
