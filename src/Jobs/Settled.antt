-- ===== src/Jobs/Settled.antt =====
-- Proofs about every state that steps lead to: the rows stay coherent, and a job that is completed or
-- cancelled never changes again.
use dreamchat_image_platform.Common.{
  String, Bool, true, ◌&&◌, ◌==◌, Option, none, some, List, [], ◌∷◌, ◌≡◌, refl, All, eq_iff,
  Bool-cases, inl, inr,
}
use dreamchat_image_platform.Common.Tables.{find_row, update_row, find_row-update_row}
use dreamchat_image_platform.Assets.Supersede.{StoredAsset, ArtifactSlot}
use dreamchat_image_platform.Jobs.{
  JobStatus, queued, running, preview_ready, completed, failed, cancelled, GenerationJob, Store,
}
use dreamchat_image_platform.Jobs.Queries.{job_key, owns, lock_generation_job_row}
use dreamchat_image_platform.Jobs.Persist.{
  PersistSuccess, PersistResult, final_locked, preview_locked, final_by_status, preview_by_status,
  insert_final_asset_and_complete_job, insert_preview_asset_and_mark_preview_ready,
}
use dreamchat_image_platform.Jobs.Coherence.{IsCoherent, is_settled, Change, same, added, updated}
use dreamchat_image_platform.Jobs.Changes.{Step-Change}
use dreamchat_image_platform.Jobs.Steps.{Reach, here, next}

All-update_found :
    (P : GenerationJob → Type 0) (id : String) (j : GenerationJob)
    (set : GenerationJob → GenerationJob) (rows : List GenerationJob)
    → find_row job_key id rows ≡ some j
    → (P j → P (set j))
    → All P rows
    → All P (update_row job_key id set rows)
unfolding find_row update_row
All-update_found P id j set [] h f a = tt
All-update_found P id j set (r ∷ rows) h f a = elim (Bool-cases (r.id == id)) [
  | inl e ↦ let r≡j : r ≡ j = cc (rw (e, find_row) at h) in rw e (rw r≡j (f (rw r≡j at a.0)), a.1)
  | inr e ↦ rw e (a.0, All-update_found P id j set rows (rw (e, find_row) at h) f a.1)
]

Change-IsCoherent :
    (rows rows' : List GenerationJob)
    → Change rows rows'
    → All IsCoherent rows
    → All IsCoherent rows'
Change-IsCoherent rows rows' (same e) a = rw e a
Change-IsCoherent rows rows' (added j fresh c e) a = rw e (c, a)
Change-IsCoherent rows rows' (updated id j set found active keeps tenant c e) a =
    rw e (All-update_found IsCoherent id j set rows found c a)

-- From coherent rows, every sequence of transactions leads to coherent rows: only a completed job has
-- final assets, a job that is ready to preview has a preview, and a job has an error code exactly if it
-- failed or was cancelled.
pub Reach-IsCoherent : (s t : Store) → Reach s t → All IsCoherent s.jobs → All IsCoherent t.jobs
Reach-IsCoherent s t here a = a
Reach-IsCoherent s t (next {t = u} r step) a =
    Change-IsCoherent u.jobs t.jobs (Step-Change u t step) (Reach-IsCoherent s u r a)

Change-settled :
    (id : String) (i : GenerationJob) (rows rows' : List GenerationJob)
    → is_settled i.status ≡ true
    → Change rows rows'
    → find_row job_key id rows ≡ some i
    → find_row job_key id rows' ≡ some i
unfolding find_row
Change-settled id i rows rows' settled (same e) h = rw e h
Change-settled id i rows rows' settled (added j fresh c e) h = elim (Bool-cases (j.id == id)) [
  | inl same_id ↦ cc (rw ((eq_iff j.id id).0 same_id) at fresh)
  | inr other ↦ rw (e, other) h
]
Change-settled id i rows rows' settled (updated k j set found active keeps tenant c e) h =
    elim (Bool-cases (k == id)) [
      | inl same_id ↦
          let found' : find_row job_key id rows ≡ some j = rw ((eq_iff k id).0 same_id) at found in
          let i≡j : i ≡ j = cc in cc
      | inr other ↦ rw (e, find_row-update_row job_key id k set rows keeps, other) h
    ]

-- A job that is completed or cancelled has the same row in every state that transactions lead to.
pub Reach-settled :
    (id : String) (j : GenerationJob) (s t : Store)
    → Reach s t
    → find_row job_key id s.jobs ≡ some j
    → is_settled j.status ≡ true
    → find_row job_key id t.jobs ≡ some j
Reach-settled id j s t here found settled = found
Reach-settled id j s t (next {t = u} r step) found settled =
    Change-settled id j u.jobs t.jobs settled (Step-Change u t step)
      (Reach-settled id j s u r found settled)

-- The row that a lock without a stale reservation finds is the job's.
lock-settled :
    (id tenant : String) (reservation : Option String) (j : GenerationJob)
    (rows : List GenerationJob)
    → find_row job_key id rows ≡ some j
    → is_settled j.status ≡ true
    → (locked : GenerationJob) → lock_generation_job_row id tenant reservation rows ≡ some locked
    → is_settled locked.status ≡ true
unfolding lock_generation_job_row
lock-settled id tenant reservation j rows found settled locked h =
    elim (Bool-cases (j.tenant_id == tenant && owns reservation j)) [
      | inl passes ↦
          let e : j ≡ locked = cc (rw (found, lock_generation_job_row, passes) at h) in
          rw e at settled
      | inr fails ↦ cc (rw (found, lock_generation_job_row, fails) at h)
    ]

final_by_status-settled :
    (s : JobStatus) (output : PersistResult × Store) (st : Store)
    → is_settled s ≡ true
    → (final_by_status s output st).1 ≡ st
unfolding final_by_status
final_by_status-settled queued output st h = cc
final_by_status-settled running output st h = cc
final_by_status-settled preview_ready output st h = cc
final_by_status-settled completed output st h = refl
final_by_status-settled failed output st h = cc
final_by_status-settled cancelled output st h = refl

preview_by_status-settled :
    (s : JobStatus) (output : PersistResult × Store) (st : Store)
    → is_settled s ≡ true
    → (preview_by_status s output st).1 ≡ st
unfolding preview_by_status
preview_by_status-settled queued output st h = cc
preview_by_status-settled running output st h = cc
preview_by_status-settled preview_ready output st h = cc
preview_by_status-settled completed output st h = refl
preview_by_status-settled failed output st h = cc
preview_by_status-settled cancelled output st h = refl

final_locked-settled :
    (locked : Option GenerationJob) (reservation : Option String) (output : PersistResult × Store)
    (st : Store)
    → ((j : GenerationJob) → locked ≡ some j → is_settled j.status ≡ true)
    → (final_locked locked reservation output st).1 ≡ st
unfolding final_locked
final_locked-settled none reservation output st h = refl
final_locked-settled (some j) reservation output st h =
    final_by_status-settled j.status output st (h j refl)

preview_locked-settled :
    (locked : Option GenerationJob) (reservation : Option String) (output : PersistResult × Store)
    (st : Store)
    → ((j : GenerationJob) → locked ≡ some j → is_settled j.status ≡ true)
    → (preview_locked locked reservation output st).1 ≡ st
unfolding preview_locked
preview_locked-settled none reservation output st h = refl
preview_locked-settled (some j) reservation output st h =
    preview_by_status-settled j.status output st (h j refl)

-- Once a job is completed or cancelled, in every later state a worker's final output and its preview
-- leave the whole store as it is: no asset, no transition, no attempt and no cost event.
pub Reach-silent :
    (id : String) (j : GenerationJob) (s t : Store)
    → Reach s t
    → find_row job_key id s.jobs ≡ some j
    → is_settled j.status ≡ true
    → (tenant : String) (params : StoredAsset) (forced : Bool) (slot : ArtifactSlot)
      (success : Option PersistSuccess) (reservation : Option String)
    → ((insert_final_asset_and_complete_job id tenant params forced slot success reservation t).1
        ≡ t)
      × ((insert_preview_asset_and_mark_preview_ready id tenant params success reservation t).1 ≡ t)
unfolding insert_final_asset_and_complete_job insert_preview_asset_and_mark_preview_ready
Reach-silent id j s t r found settled tenant params forced slot success reservation =
    let later = Reach-settled id j s t r found settled in
    let locked = lock-settled id tenant reservation j t.jobs later settled in
    (final_locked-settled _ reservation _ t locked, preview_locked-settled _ reservation _ t locked)
