-- ===== src/Jobs/Persisted.antt =====
-- Proofs about one guarded output: what it writes when it is persisted, and that it writes nothing
-- otherwise.
use dreamchat_image_platform.Common.{
  String, Bool, true, false, ◌||◌, ◌==◌, ◌⊎◌, Option, none, some, List, [], ◌∷◌, ◌≡◌, ◌≢◌, refl,
  eq_refl, Bool-cases, Option-cases, inl, inr, subst, ℕ, if◌then◌else◌, &&_split,
}
use dreamchat_image_platform.Common.Tables.{find_row, find_row-update_row, map_row}
use dreamchat_image_platform.Assets.Supersede.{
  StoredAsset, ArtifactSlot, supersede_artifact_slot, insert_asset, insert_version, asset_ready,
}
use dreamchat_image_platform.Jobs.{
  JobStatus, queued, running, preview_ready, completed, failed, cancelled, GenerationJob, Store,
  is_running, is_preview_ready, ProviderAttempt, succeeded,
}
use dreamchat_image_platform.Jobs.Queries.{
  job_key, attempt_key, owns, mark_completed, set_completed, mark_provider_attempt_succeeded,
}
use dreamchat_image_platform.Jobs.Persist.{
  PersistSuccess, PersistResult, ok, persisted, final_locked, final_by_status, persist_success,
  write_output, insert_final_asset_and_complete_job,
}
use dreamchat_image_platform.Jobs.Coherence.{update_job-some}

-- Nothing is persisted and the store is as before, or something is, of which the property holds.
abbrev pub Outcome : (Store → Type 0) → Store → PersistResult × Store → Type 0
Outcome P st r = ((r.0 ≢ ok persisted) × (r.1 ≡ st)) ⊎ ((r.0 ≡ ok persisted) × P r.1)

module _ (P : Store → Type 0) (output : PersistResult × Store) (st : Store) where
  final_by_status-Outcome :
      (s : JobStatus) → Outcome P st output → Outcome P st (final_by_status s output st)
  unfolding final_by_status
  final_by_status-Outcome queued h = inl (λ e. cc, refl)
  final_by_status-Outcome running h = h
  final_by_status-Outcome preview_ready h = h
  final_by_status-Outcome completed h = inl (λ e. cc, refl)
  final_by_status-Outcome failed h = inl (λ e. cc, refl)
  final_by_status-Outcome cancelled h = inl (λ e. cc, refl)

  final_locked-Outcome :
      (locked : Option GenerationJob) (reservation : Option String)
      → Outcome P st output
      → Outcome P st (final_locked locked reservation output st)
  unfolding final_locked
  final_locked-Outcome none none h = inl (λ e. cc, refl)
  final_locked-Outcome none (some reservation) h = inl (λ e. cc, refl)
  final_locked-Outcome (some j) reservation h = final_by_status-Outcome j.status h

-- What an output that commits leaves.
abbrev pub Written :
    List StoredAsset
    → Option (List GenerationJob)
    → Option PersistSuccess
    → String
    → Store
    → Store
    → Type 0
Written assets marked success asset st t =
    (rows : List GenerationJob) × (marked ≡ some rows)
    × (persist_success success asset (record st { assets = assets; jobs = rows }) ≡ some t)

write_output-Outcome :
    (assets : List StoredAsset) (marked : Option (List GenerationJob))
    (success : Option PersistSuccess) (asset : String) (st : Store)
    → Outcome
        (Written assets marked success asset st)
        st
        (write_output assets marked success asset st)
unfolding write_output
write_output-Outcome assets none success asset st = inl (λ e. cc, refl)
write_output-Outcome assets (some rows) success asset st =
    elim (Option-cases
      (persist_success success asset (record st { assets = assets; jobs = rows }))) [
        | inl e ↦ inl (rw (e, write_output) (λ t. cc, refl))
        | inr (t, e) ↦ inr (rw (e, write_output) (refl, (rows, refl, e)))
      ]

-- The bookkeeping of a success: its attempt is named and, where it is stored, has succeeded with its
-- latency, and the cost event carries the asset and the attempt.
abbrev pub Booked : Option PersistSuccess → String → Store → Store → Type 0
Booked none asset st t = (t.attempts ≡ st.attempts) × (t.events ≡ st.events)
Booked (some success) asset st t =
    ((success.attempt_id == "") ≡ false)
    × (find_row attempt_key success.attempt_id t.attempts
        ≡ map_row (λ a. record a { status = succeeded; latency_ms = some success.latency_ms })
            (find_row attempt_key success.attempt_id st.attempts))
    × (t.events
        ≡ record success.cost_event {
          asset_id = some asset;
          provider_attempt_id = success.attempt_id;
        }
          ∷ st.events)

attempts_lem :
    (id : String) (latency : ℕ) (rows rows' : List ProviderAttempt)
    → rows' ≡ mark_provider_attempt_succeeded id latency rows
    → find_row attempt_key id rows'
      ≡ map_row
          (λ a. record a { status = succeeded; latency_ms = some latency })
          (find_row attempt_key id rows)
unfolding mark_provider_attempt_succeeded
attempts_lem id latency rows rows' h =
    rw
      (
        h,
        find_row-update_row attempt_key id id
            (λ a. record a { status = succeeded; latency_ms = some latency }) rows (λ a. refl),
        eq_refl id,
      )
      refl

persist_success-Booked :
    (success : Option PersistSuccess) (asset : String) (st st' : Store)
    → persist_success success asset st ≡ some st'
    → (st'.jobs ≡ st.jobs) × (st'.assets ≡ st.assets) × Booked success asset st st'
unfolding persist_success
persist_success-Booked none asset st st' h = (cc, cc, (cc, cc))
persist_success-Booked (some success) asset st st' h =
    elim (Bool-cases (success.attempt_id == "")) [
      | inl e ↦ cc (rw (e, persist_success) at h)
      | inr e ↦ (
        cc (rw (e, persist_success) at h),
        cc (rw (e, persist_success) at h),
        (
          e,
          attempts_lem success.attempt_id success.latency_ms st.attempts st'.attempts
              (cc (rw (e, persist_success) at h)),
          cc (rw (e, persist_success) at h),
        ),
      )
    ]

-- The assets with the new one: a ready row at the head or, where it is forced, the takeover of its slot.
abbrev pub with_asset : Bool → StoredAsset → ArtifactSlot → List StoredAsset → List StoredAsset
with_asset true params slot rows = supersede_artifact_slot params slot rows
with_asset false params slot rows =
    record params {
      version = insert_version params.version;
      status = asset_ready;
      superseded_by_asset_id = none;
    }
    ∷ rows

-- A job that a transaction has completed with one asset, and the stored assets.
abbrev pub Completes :
    String
    → String
    → StoredAsset
    → List StoredAsset
    → Option PersistSuccess
    → Option String
    → Store
    → Store
    → Type 0
Completes id tenant params assets success reservation st t =
    (j : GenerationJob) × (find_row job_key id st.jobs ≡ some j)
    × (j.tenant_id ≡ tenant)
    × ((is_running j.status || is_preview_ready j.status) ≡ true)
    × (owns reservation j ≡ true)
    × (find_row job_key id t.jobs
        ≡ some (record j { status = completed; final_asset_ids = params.id ∷ [] }))
    × (t.assets ≡ assets)
    × Booked success params.id st t

mark_completed-some :
    (id tenant : String) (ids : List String) (reservation : Option String)
    (rows rows' : List GenerationJob)
    → mark_completed id tenant ids reservation rows ≡ some rows'
    → (j : GenerationJob) × (find_row job_key id rows ≡ some j)
      × (j.tenant_id ≡ tenant)
      × ((is_running j.status || is_preview_ready j.status) ≡ true)
      × (owns reservation j ≡ true)
      × (find_row job_key id rows' ≡ some (set_completed ids j))
unfolding mark_completed
mark_completed-some id tenant ids reservation rows rows' h =
    let (j, found, of_tenant, passed, e) = update_job-some _ _ id tenant rows rows' h in
    let (active, owned) = &&_split (is_running j.status || is_preview_ready j.status) _ passed in
    (
      j,
      found,
      of_tenant,
      active,
      owned,
      rw
          (
            e,
            find_row-update_row job_key id id (set_completed ids) rows (λ i. refl),
            eq_refl id,
            found,
          )
          refl,
    )

Booked-transfer :
    (success : Option PersistSuccess) (asset : String) (rows : List GenerationJob)
    (assets : List StoredAsset) (st t : Store)
    → Booked success asset (record st { assets = assets; jobs = rows }) t
    → Booked success asset st t
Booked-transfer none asset rows assets st t h = h
Booked-transfer (some success) asset rows assets st t h = h

Written-Completes :
    (id tenant : String) (params : StoredAsset) (assets : List StoredAsset)
    (success : Option PersistSuccess) (reservation : Option String) (st t : Store)
    → Written assets
        (mark_completed id tenant (params.id ∷ []) reservation st.jobs)
        success
        params.id
        st
        t
    → Completes id tenant params assets success reservation st t
Written-Completes id tenant params assets success reservation st t (rows, marked, booked) =
    let (j, found, of_tenant, active, owned, after) =
      mark_completed-some id tenant (params.id ∷ []) reservation st.jobs rows marked in
    let (same_jobs, same_assets, book) =
      persist_success-Booked success params.id (record st { assets = assets; jobs = rows }) t
        booked in
    (
      j,
      found,
      of_tenant,
      active,
      owned,
      rw same_jobs after,
      same_assets,
      Booked-transfer success params.id rows assets st t book,
    )

Outcome_mono :
    (P Q : Store → Type 0) (st : Store) (r : PersistResult × Store)
    → ((t : Store) → P t → Q t)
    → Outcome P st r
    → Outcome Q st r
Outcome_mono P Q st r f (inl h) = inl h
Outcome_mono P Q st r f (inr h) = inr (h.0, f r.1 h.1)

with_asset_lem :
    (forced : Bool) (params : StoredAsset) (slot : ArtifactSlot) (rows : List StoredAsset)
    → (if forced then supersede_artifact_slot params slot rows else insert_asset params rows)
      ≡ with_asset forced params slot rows
unfolding insert_asset
with_asset_lem true params slot rows = refl
with_asset_lem false params slot rows = refl

-- The guarded final output has two outcomes. Either it reports something else than a persisted output,
-- and the whole store is as before; or it reports one, the job was running or ready to preview, for
-- the tenant and under the reservation, and is now completed with exactly this asset and no other
-- column changed, the asset is stored (ready, or as the takeover of its slot where it is forced), and
-- the attempt has succeeded and the cost event, with the asset and the attempt, is written.
pub insert_final-Outcome :
    (id tenant : String) (params : StoredAsset) (forced : Bool) (slot : ArtifactSlot)
    (success : Option PersistSuccess) (reservation : Option String) (st : Store)
    → Outcome
        (Completes id tenant params
          (with_asset forced params slot st.assets)
          success
          reservation
          st)
        st
        (insert_final_asset_and_complete_job id tenant params forced slot success reservation st)
unfolding insert_final_asset_and_complete_job insert_asset
insert_final-Outcome id tenant params forced slot success reservation st =
    let done : Store → Type 0 =
      Completes id tenant params (with_asset forced params slot st.assets) success reservation st in
    final_locked-Outcome done _ st _ reservation (
      Outcome_mono _ done st _
        (λ t w. Written-Completes id tenant params _ success reservation st t (
          subst
            (λ a.
              Written a (mark_completed id tenant (params.id ∷ []) reservation st.jobs) success
                params.id st t)
            (with_asset_lem forced params slot st.assets) w))
        (write_output-Outcome _ _ success params.id st))
