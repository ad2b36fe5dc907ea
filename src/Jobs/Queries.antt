-- ===== src/Jobs/Queries.antt =====
-- The statements of internal/db/dbgen/generation_jobs.sql.go and provider_attempts.sql.go, on the
-- tables of the jobs.
use dreamchat_image_platform.Common.{
  ℕ, String, Bool, true, false, not, ◌&&◌, ◌||◌, ◌==◌, Option, none, some, List, [], keep_if,
  if◌then◌else◌, is_empty, length,
}
use dreamchat_image_platform.Common.Tables.{find_row, update_row}
use dreamchat_image_platform.Jobs.{
  JobStatus, queued, running, preview_ready, completed, failed, cancelled, GenerationJob,
  ProviderAttempt, succeeded, attempt_failed, is_queued, is_running, is_preview_ready, is_live,
}

abbrev pub job_key : GenerationJob → String
job_key j = j.id

abbrev pub attempt_key : ProviderAttempt → String
attempt_key a = a.id

-- `$n::text IS NULL OR cost_reservation_id = $n`
unfoldable pub owns : Option String → GenerationJob → Bool
owns none j = true
owns (some reservation) j = elim j.cost_reservation_id [
  | none ↦ false
  | some held ↦ held == reservation
]

-- UPDATE generation_jobs … WHERE id AND tenant_id AND guard RETURNING; `none` is no row.
unfoldable pub update_job :
    (GenerationJob → Bool)
    → (GenerationJob → GenerationJob)
    → String
    → String
    → List GenerationJob
    → Option (List GenerationJob)
update_job guard set id tenant jobs = elim (find_row job_key id jobs) [
  | none ↦ none
  | some j ↦
      if j.tenant_id == tenant && guard j then some (update_row job_key id set jobs) else none
]

unfoldable pub lock_generation_job : String → String → List GenerationJob → Option JobStatus
lock_generation_job id tenant jobs = elim (find_row job_key id jobs) [
  | none ↦ none
  | some j ↦ if j.tenant_id == tenant then some j.status else none
]

unfoldable pub lock_generation_job_row :
    String → String → Option String → List GenerationJob → Option GenerationJob
lock_generation_job_row id tenant reservation jobs = elim (find_row job_key id jobs) [
  | none ↦ none
  | some j ↦ if j.tenant_id == tenant && owns reservation j then some j else none
]

abbrev pub set_running : GenerationJob → GenerationJob
set_running j = record j { status = running }

unfoldable pub mark_running :
    String → String → Option String → List GenerationJob → Option (List GenerationJob)
mark_running id tenant reservation =
    update_job (λ j. is_queued j.status && owns reservation j) set_running id tenant

abbrev pub claim_finalization : GenerationJob → GenerationJob
claim_finalization j = record j {
  status = if is_queued j.status then running else j.status;
  input_payload = record j.input_payload { preview_finalization_claimed = true };
}

abbrev pub may_finalize : Option String → GenerationJob → Bool
may_finalize reservation j =
    (is_preview_ready j.status || is_queued j.status)
    && (not (is_empty j.preview_asset_ids)
        && (is_empty j.final_asset_ids
            && (not j.input_payload.preview_finalization_claimed && owns reservation j)))

unfoldable pub claim_preview_finalization :
    String → String → Option String → List GenerationJob → Option (List GenerationJob)
claim_preview_finalization id tenant reservation =
    update_job (may_finalize reservation) claim_finalization id tenant

abbrev pub set_preview_ready : List String → GenerationJob → GenerationJob
set_preview_ready ids j = record j { status = preview_ready; preview_asset_ids = ids }

unfoldable pub mark_preview_ready :
    String → String → List String → Option String → List GenerationJob → Option (List GenerationJob)
mark_preview_ready id tenant ids reservation =
    update_job (λ j. is_running j.status && owns reservation j) (set_preview_ready ids) id tenant

abbrev pub set_completed : List String → GenerationJob → GenerationJob
set_completed ids j = record j { status = completed; final_asset_ids = ids }

unfoldable pub mark_completed :
    String → String → List String → Option String → List GenerationJob → Option (List GenerationJob)
mark_completed id tenant ids reservation =
    update_job (λ j. (is_running j.status || is_preview_ready j.status) && owns reservation j)
      (set_completed ids) id tenant

abbrev pub set_failed : String → String → Bool → GenerationJob → GenerationJob
set_failed code message retryable j = record j {
  status = failed;
  error_code = some code;
  error_message = some message;
  retryable = some retryable;
}

unfoldable pub mark_failed :
    String
    → String
    → String
    → String
    → Bool
    → Option String
    → List GenerationJob
    → Option (List GenerationJob)
mark_failed id tenant code message retryable reservation =
    update_job (λ j. is_live j.status && owns reservation j) (set_failed code message retryable) id
      tenant

abbrev pub set_cancelled : String → GenerationJob → GenerationJob
set_cancelled message j = record j {
  status = cancelled;
  error_code = some "cancelled";
  error_message = some message;
  retryable = some false;
}

unfoldable pub cancel_generation_job :
    String → String → String → List GenerationJob → Option (List GenerationJob)
cancel_generation_job id tenant message = update_job (λ _. true) (set_cancelled message) id tenant

abbrev pub reset_for_retry : String → ℕ → GenerationJob → GenerationJob
reset_for_retry reservation estimate j = record j {
  status = queued;
  input_payload = record j.input_payload { preview_finalization_claimed = false };
  error_code = none;
  error_message = none;
  retryable = none;
  final_asset_ids = [];
  cost_reservation_id = some reservation;
  cost_estimate_usd = estimate;
  actual_cost_usd = none;
}

unfoldable pub retry_reset_generation_job :
    String → String → String → ℕ → List GenerationJob → Option (List GenerationJob)
retry_reset_generation_job id tenant reservation estimate =
    update_job (λ _. true) (reset_for_retry reservation estimate) id tenant

unfoldable pub set_generation_job_cost :
    String → String → ℕ → List GenerationJob → List GenerationJob
set_generation_job_cost id reservation estimate =
    update_row job_key id
      (λ j. record j { cost_reservation_id = some reservation; cost_estimate_usd = estimate })

-- CountProviderAttemptsForJob
unfoldable pub count_provider_attempts : String → List ProviderAttempt → ℕ
count_provider_attempts job attempts = length (keep_if (λ a. a.generation_job_id == job) attempts)

unfoldable pub mark_provider_attempt_succeeded :
    String → ℕ → List ProviderAttempt → List ProviderAttempt
mark_provider_attempt_succeeded id latency =
    update_row attempt_key id (λ a. record a { status = succeeded; latency_ms = some latency })

unfoldable pub mark_provider_attempt_failed :
    String → String → ℕ → List ProviderAttempt → List ProviderAttempt
mark_provider_attempt_failed id code latency =
    update_row attempt_key id
      (λ a. record a { status = attempt_failed; error_code = some code; latency_ms = some latency })
