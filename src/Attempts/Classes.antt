-- ===== src/Attempts/Classes.antt =====
-- What a classified failure promises to the queue.
use maeglagi.Base.{
  ℕ, ◌≡◌, ◌↔◌, refl, inl, inr, Bool, true, false, Option, none, some, List, [], ◌∷◌, arith, ◌==◌,
  nat_eq, list_eq, if◌then◌else◌, Option-cases,
}
use maeglagi.Base.Text.{Text}
use maeglagi.Jobs.Execution.{expected, missing_credential}
use maeglagi.Attempts.{
  Failure, AttemptError, capabilities, providers, extraction_stages, vetted, first_some, keep_if,
  is_some, within, chain_of, provider_of, status_of, code_of, safe_attempt_error,
}

-- What is kept by a test passes it.
kept_passes :
    {A B : Type 0} (p : B → Bool) (f : A → Option B) (xs : List A) {y : B}
    → first_some (λ x. keep_if p (f x)) xs ≡ some y
    → p y ≡ true
kept_passes p f [] h = cc
kept_passes p f (x ∷ xs) {y} h = ground (arith, kept_passes p f xs {y = y})

kept_under :
    {A B : Type 0} (q : A → Bool) (p : B → Bool) (f : A → Option B) (xs : List A) {y : B}
    → first_some (λ x. if q x then keep_if p (f x) else none) xs ≡ some y
    → p y ≡ true
kept_under q p f [] h = cc
kept_under q p f (x ∷ xs) {y} h = ground (arith, kept_under q p f xs {y = y})

status_within : (chain : List Failure) {s : ℕ} → status_of chain ≡ some s → within 100 599 s ≡ true
unfolding status_of
status_within chain {s} h =
    let answered : List Failure → Option ℕ =
      λ l. first_some (λ item. keep_if (within 100 599) item.response_status) l in
    elim (Option-cases (answered chain)) [
      | inr (t, e) ↦
          let k = kept_passes (within 100 599) (λ (i : Failure). i.response_status) chain e in
          let q = rw (e, status_of) at h in ground (arith, q, k)
      | inl absent ↦
          let g = rw (absent, status_of) at h in
          let k =
            kept_under (λ (i : Failure). i.is_provider_error) (within 400 599)
              (λ (i : Failure). i.http_status) chain g in
          ground (arith, k)
    ]

code-capability :
    (exc : Failure) (chain : List Failure) (capability : Option Text) (status : Option ℕ)
    → (code_of exc chain capability status == missing_credential) ≡ true
    → is_some capability ≡ true
unfolding code_of
code-capability exc chain (some c) status h = refl
code-capability exc chain none status h = ground arith

explained_by :
    (b : Bool) (o : Option Text)
    → (b ≡ true → is_some o ≡ true)
    → (b ≡ true) ↔ (is_some (if b then o else none) ≡ true)
explained_by true o h = (h, λ _. refl)
explained_by false o h = (λ k. cc, λ k. cc)

only_if : (b : Bool) (o : Option Text) {c : Text} → (if b then o else none) ≡ some c → o ≡ some c
only_if true o h = h
only_if false o h = cc

abbrev capability_of : List Failure → Option Text
capability_of chain = first_some (λ i. keep_if (vetted capabilities) i.capability) chain

-- What the fields of a classified failure have to do with each other.
pub record IsClassified (e : AttemptError) : Type 0 where
  pub final : e.error.terminal ≡ expected e.error
  pub explained : ((e.error.code == missing_credential) ≡ true) ↔ (is_some e.capability ≡ true)
  pub status : (s : ℕ) → e.error.http_status ≡ some s → within 100 599 s ≡ true
  pub capability : (c : Text) → e.capability ≡ some c → vetted capabilities c ≡ true
  pub provider : (p : Text) → e.provider ≡ some p → vetted providers p ≡ true
  pub stage : (s : Text) → e.extraction_stage ≡ some s → vetted extraction_stages s ≡ true

-- A classified failure is final exactly if it counts as expected; it is a missing credential exactly
-- if it carries a capability; its status is one of HTTP, and the names that it carries are vetted.
pub safe_attempt_error-IsClassified :
    (exc : Failure) (causes : List Failure) (stage : Text)
    → IsClassified (safe_attempt_error exc causes stage)
unfolding safe_attempt_error expected
safe_attempt_error-IsClassified exc causes stage = record {
  final = refl;
  explained = explained_by _ _ (
      code-capability exc (chain_of exc causes) (capability_of (chain_of exc causes))
        (status_of (chain_of exc causes)));
  status = λ s h. status_within (chain_of exc causes) h;
  capability = λ c h.
      kept_passes (vetted capabilities) (λ (i : Failure). i.capability) (chain_of exc causes)
        (only_if _ _ h);
  provider = λ p h. kept_passes (vetted providers) provider_of (chain_of exc causes) h;
  stage = λ s h.
      kept_passes (vetted extraction_stages) (λ (i : Failure). i.extraction_stage)
        (chain_of exc causes) h;
}
