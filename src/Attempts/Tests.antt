-- ===== src/Attempts/Tests.antt =====
-- A provider that refuses the key, behind an error of the pipeline.
use maeglagi.Base.{◌≡◌, refl, none, some, true, false, [], ◌∷◌}
use maeglagi.Base.Text.{codes}
use maeglagi.Attempts.{Failure, safe_attempt_error}
use maeglagi.Attempts.Classes.{IsClassified, safe_attempt_error-IsClassified}

abbrev plain_failure : Failure
plain_failure = record {
  type_name = codes "IngestionError";
  is_ingestion_error = true;
  is_missing_credential = false;
  is_provider_error = false;
  is_timeout = false;
  is_connect_error = false;
  capability = none;
  provider = none;
  providers = [];
  extraction_stage = none;
  response_status = none;
  http_status = none;
}

abbrev refusal : Failure
refusal = record plain_failure {
  is_ingestion_error = false;
  is_provider_error = true;
  provider = some (codes "openai");
  http_status = some 401;
}

refusal_is_final :
    (safe_attempt_error plain_failure (refusal ∷ []) (codes "extract")).error.terminal ≡ true
unfolding safe_attempt_error
refusal_is_final = refl

safe_attempt_error-IsClassified_example :
    IsClassified (safe_attempt_error plain_failure (refusal ∷ []) (codes "extract"))
safe_attempt_error-IsClassified_example =
    safe_attempt_error-IsClassified plain_failure (refusal ∷ []) (codes "extract")
