-- ===== src/Attempts.antt =====
-- How a failed attempt is classified: `_safe_attempt_error` of
-- backend/app/modules/ingestion/infrastructure/source_processor.py.
pub mod Classes
mod Tests
use maeglagi.Base.{
  ℕ, Bool, true, false, not, ◌&&◌, ◌||◌, Option, none, some, List, [], ◌∷◌, ◌==◌, nat_eq, list_eq,
  leb, if◌then◌else◌, any, take, contains,
}
use maeglagi.Base.Text.{Text, codes}
use maeglagi.Jobs.Execution.{SafeError, missing_credential, access_status}

-- What is read of an exception: of which of the classes it is, and the attributes that it has.
pub record Failure : Type 0 where
  pub type_name : Text
  pub is_ingestion_error : Bool
  pub is_missing_credential : Bool
  pub is_provider_error : Bool
  pub is_timeout : Bool
  pub is_connect_error : Bool
  pub capability : Option Text
  pub provider : Option Text
  pub providers : List Text
  pub extraction_stage : Option Text
  pub response_status : Option ℕ
  pub http_status : Option ℕ

-- _CAPABILITIES, _PROVIDERS and _EXTRACTION_STAGES: the names that may be reported.
abbrev pub capabilities : List Text
capabilities =
    codes "chat" ∷ codes "embedding" ∷ codes "transcription" ∷ codes "structuredOutput" ∷ []

abbrev pub providers : List Text
providers = codes "openai" ∷ codes "anthropic" ∷ codes "nvidia" ∷ codes "ollama" ∷ []

abbrev pub extraction_stages : List Text
extraction_stages =
    codes "classification"
    ∷ codes "entity"
    ∷ codes "event"
    ∷ codes "relation"
    ∷ codes "context"
    ∷ codes "context_update"
    ∷ []

abbrev pub vetted : List Text → Text → Bool
vetted names name = contains name names

pub record AttemptError : Type 0 where
  pub error : SafeError
  pub stage : Text
  pub error_type : Text
  pub cause_type : Option Text
  pub capability : Option Text
  pub provider : Option Text
  pub extraction_stage : Option Text

-- `next((f(x) for x in xs if f(x) is not None), None)`
abbrev pub first_some {ℓ κ} : {A : Type ℓ} {B : Type κ} → (A → Option B) → List A → Option B
first_some f [] = none
first_some f (x ∷ xs) = elim (f x) [ some y ↦ some y | none ↦ first_some f xs ]

abbrev pub keep_if {ℓ} : {A : Type ℓ} → (A → Bool) → Option A → Option A
keep_if p none = none
keep_if p (some x) = if p x then some x else none

-- The exception and its causes, none of them twice, the first eight of them.
pub chain_of : Failure → List Failure → List Failure
chain_of exc causes = exc ∷ take 7 causes

pub last_of : Failure → List Failure → Failure
last_of exc [] = exc
last_of exc (c ∷ causes) = last_of c causes

pub provider_of : Failure → Option Text
provider_of item =
    if item.is_missing_credential
    then elim item.providers [ [] ↦ item.provider | p ∷ [] ↦ some p | p ∷ q ∷ _ ↦ none ]
    else item.provider

abbrev pub within : ℕ → ℕ → ℕ → Bool
within low high s = leb low s && leb s high

pub status_of : List Failure → Option ℕ
status_of chain = elim (first_some (λ item. keep_if (within 100 599) item.response_status) chain) [
  | some s ↦ some s
  | none ↦
      first_some
        (λ item. if item.is_provider_error then keep_if (within 400 599) item.http_status else none)
        chain
]

abbrev pub is_some {ℓ} : {A : Type ℓ} → Option A → Bool
is_some none = false
is_some (some x) = true

pub code_of : Failure → List Failure → Option Text → Option ℕ → Text
code_of exc chain capability status =
    if any (λ i. i.is_missing_credential) chain && is_some capability
    then missing_credential
    else if is_some status
    then codes "http_status"
    else if any (λ i. i.is_timeout) chain
    then codes "http_timeout"
    else if any (λ i. i.is_connect_error) chain
    then codes "http_connect"
    else if any (λ i. i.is_provider_error) chain
    then codes "provider_error"
    else if exc.is_ingestion_error
    then codes "ingestion_error"
    else codes "processing_error"

unfoldable pub safe_attempt_error : Failure → List Failure → Text → AttemptError
unfolding chain_of last_of provider_of status_of code_of
safe_attempt_error exc causes stage =
    let chain = chain_of exc causes in
    let capability = first_some (λ i. keep_if (vetted capabilities) i.capability) chain in
    let status = status_of chain in
    let code = code_of exc chain capability status in
    let provider_failure = any (λ i. i.is_provider_error) chain in
    record {
      error = record {
        code = code;
        terminal = code == missing_credential || (provider_failure && access_status status);
        provider_failure = provider_failure;
        http_status = status;
      };
      stage = stage;
      error_type = exc.type_name;
      cause_type = elim (take 7 causes) [ [] ↦ none | c ∷ rest ↦ some (last_of c rest).type_name ];
      capability = if code == missing_credential then capability else none;
      provider = first_some (λ i. keep_if (vetted providers) (provider_of i)) chain;
      extraction_stage =
          first_some (λ i. keep_if (vetted extraction_stages) i.extraction_stage) chain;
    }
