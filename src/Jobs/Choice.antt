-- ===== src/Jobs/Choice.antt =====
-- Which row a claim takes.
use maeglagi.Base.{
  ℕ, ◌≡◌, ◌≢◌, subst, inl, inr, Bool, true, false, not, ◌&&◌, none, some, List, [], ◌∷◌, map, arith,
  nat_eq, All, All-select_test, All-imp, Distinct, select, Bool-cases, Option-cases,
}
use maeglagi.Base.Rows.{find, find_self}
use maeglagi.Jobs.{Job, job_key, claimable, runs_before, first_candidate, candidate}

-- What holds of every row that may be chosen holds of the chosen one.
first_candidate_ind {κ} :
    (P : Job → Type κ) (jobs : List Job) {job : Job}
    → All P jobs
    → first_candidate jobs ≡ some job
    → P job
unfolding first_candidate
first_candidate_ind P [] {job} a e = cc
first_candidate_ind P (x ∷ jobs) {job} a e = elim (Option-cases (first_candidate jobs)) [
  | inl alone ↦ subst P (ground arith) a.0
  | inr (best, later) ↦ elim (Bool-cases (runs_before x best)) [
    | inl first ↦ subst P (ground arith) a.0
    | inr second ↦ subst P (ground arith) (first_candidate_ind P jobs a.1 later)
  ]
]

runs_before_trans :
    (a b c : Job) → runs_before a b ≡ true → runs_before b c ≡ true → runs_before a c ≡ true
unfolding runs_before
runs_before_trans a b c h k = ground arith

runs_before_total : (a b : Job) → runs_before a b ≡ false → runs_before b a ≡ true
unfolding runs_before
runs_before_total a b h = ground arith

runs_before_refl : (a : Job) → runs_before a a ≡ true
unfolding runs_before
runs_before_refl a = ground arith

pub first_candidate-ne-none : (job : Job) (jobs : List Job) → first_candidate (job ∷ jobs) ≢ none
unfolding first_candidate
first_candidate-ne-none job jobs = ground arith

-- The row runs before every row of the list.
abbrev pub RunsFirst : Job → List Job → Type 0
RunsFirst job jobs = All (λ j. runs_before job j ≡ true) jobs

-- The chosen row runs before every other candidate.
pub first_candidate-runs_before :
    (jobs : List Job) {job : Job} → first_candidate jobs ≡ some job → RunsFirst job jobs
unfolding first_candidate
first_candidate-runs_before [] e = tt
first_candidate-runs_before (x ∷ []) {job} e =
    let p : x ≡ job = ground arith in subst (λ y. RunsFirst y (x ∷ [])) p (runs_before_refl x, tt)
first_candidate-runs_before (x ∷ y ∷ jobs) {job} e =
    elim (Option-cases (first_candidate (y ∷ jobs))) [
      | inl alone ↦ absurd (first_candidate-ne-none y jobs alone)
      | inr (best, later) ↦
          let ih = first_candidate-runs_before (y ∷ jobs) later in
          elim (Bool-cases (runs_before x best)) [
            | inl first ↦
                let p : x ≡ job = ground arith in
                subst (λ j. RunsFirst j (x ∷ y ∷ jobs)) p
                  (
                    runs_before_refl x,
                    All-imp _ _ (λ z h. runs_before_trans x best z first h) (y ∷ jobs) ih,
                  )
            | inr second ↦
                let p : best ≡ job = ground arith in
                subst (λ j. RunsFirst j (x ∷ y ∷ jobs)) p (runs_before_total x best second, ih)
          ]
    ]

-- The chosen row is the row of its source, may be claimed and is not locked.
pub candidate_lem :
    (locked : ℕ → Bool) (now : ℕ) (jobs : List Job) {job : Job}
    → Distinct (map job_key jobs)
    → candidate locked now jobs ≡ some job
    → (find job_key job.source_id jobs ≡ some job)
      × (claimable now job ≡ true)
      × (locked job.source_id ≡ false)
unfolding candidate
candidate_lem locked now jobs d e =
    first_candidate_ind
      (λ job.
        (find job_key job.source_id jobs ≡ some job)
        × (claimable now job ≡ true)
        × (locked job.source_id ≡ false))
      (select (λ job. claimable now job && not (locked job.source_id)) jobs)
      (All-imp _ _ (λ job h. (h.0, ground arith, ground arith)) _
        (All-select_test (λ job. find job_key job.source_id jobs ≡ some job)
          (λ job. claimable now job && not (locked job.source_id)) jobs (find_self job_key jobs d)))
      e
