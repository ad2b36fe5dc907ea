-- ===== src/AdminJobs/Cancelled.antt =====
-- Proofs about CancelJob: what it leaves, that it is idempotent, that no output follows it, and that it
-- keeps the budgets.
use dreamchat_image_platform.Common.{
  String, Bool, true, Option, none, some, List, ◌≡◌, refl, inl, inr, Option-cases, eq_refl, ap, sym,
  subst,
}
use dreamchat_image_platform.Common.Tables.{find_row, find_row-update_row}
use dreamchat_image_platform.Cost.{Db}
use dreamchat_image_platform.Cost.Conservation.{IsValid}
use dreamchat_image_platform.Cost.Lifecycle.{release}
use dreamchat_image_platform.Cost.Settling.{finalize-IsValid}
use dreamchat_image_platform.Cost.Once.{finalize_twice}
use dreamchat_image_platform.Jobs.{
  JobStatus, queued, running, preview_ready, completed, failed, cancelled, GenerationJob, Store,
  is_live,
}
use dreamchat_image_platform.Assets.Supersede.{StoredAsset, ArtifactSlot}
use dreamchat_image_platform.Jobs.Persist.{
  PersistSuccess, insert_final_asset_and_complete_job, insert_preview_asset_and_mark_preview_ready,
}
use dreamchat_image_platform.Jobs.Queries.{
  job_key, lock_generation_job, cancel_generation_job, set_cancelled,
}
use dreamchat_image_platform.Jobs.Coherence.{update_job-some, lock_generation_job-some}
use dreamchat_image_platform.Jobs.Settled.{Reach-silent}
use dreamchat_image_platform.Jobs.Steps.{admin_cancelled, Reach, here, next}
use dreamchat_image_platform.AdminJobs.{
  World, done, refused, not_found, cancel_message, cancel_live, cancel_by_status, cancel_locked,
  cancel_job, release_in_tx,
}

module _ (P : World → Type 0) (tenant job : String) (w : World) where
  -- What holds before, after a release alone, and after a cancel of a live job, holds after CancelJob.
  cancel_by_status-either :
      (s : JobStatus)
      → P w
      → P (record w { db = release_in_tx job w.db })
      → (is_live s ≡ true → P (cancel_live s tenant job w).1)
      → P (cancel_by_status s tenant job w).1
  unfolding cancel_by_status
  cancel_by_status-either queued kept freed live = live refl
  cancel_by_status-either running kept freed live = live refl
  cancel_by_status-either preview_ready kept freed live = live refl
  cancel_by_status-either completed kept freed live = kept
  cancel_by_status-either failed kept freed live = kept
  cancel_by_status-either cancelled kept freed live = freed

  cancel_locked-either :
      (locked : Option JobStatus)
      → P w
      → P (record w { db = release_in_tx job w.db })
      → ((s : JobStatus) → locked ≡ some s → is_live s ≡ true → P (cancel_live s tenant job w).1)
      → P (cancel_locked locked tenant job w).1
  unfolding cancel_locked
  cancel_locked-either none kept freed live = kept
  cancel_locked-either (some s) kept freed live = cancel_by_status-either s kept freed (live s refl)

-- To the tables of the jobs, CancelJob is a step of the jobs' life or nothing.
pub cancel_job-Reach :
    (tenant job : String) (w : World) → Reach w.store (cancel_job tenant job w).1.store
unfolding cancel_job cancel_live
cancel_job-Reach tenant job w =
    cancel_locked-either (λ v. Reach w.store v.store) tenant job w
      (lock_generation_job job tenant w.store.jobs) here here
      (λ s locked live.
        elim (Option-cases (cancel_generation_job job tenant (cancel_message s) w.store.jobs)) [
          | inl e ↦ rw (e, cancel_live) here
          | inr (jobs, e) ↦
              rw (e, cancel_live)
                (next here
                  (admin_cancelled job tenant (cancel_message s) s jobs locked live e refl))
        ])

-- CancelJob keeps the budgets: the reserved amount of each stays the sum of its open holds.
pub cancel_job-IsValid :
    (tenant job : String) (w : World) → IsValid w.db → IsValid (cancel_job tenant job w).1.db
unfolding cancel_job cancel_live
cancel_job-IsValid tenant job w v =
    cancel_locked-either (λ u. IsValid u.db) tenant job w
      (lock_generation_job job tenant w.store.jobs) v (finalize-IsValid release job "" w.db v)
      (λ s locked live.
        elim (Option-cases (cancel_generation_job job tenant (cancel_message s) w.store.jobs)) [
          | inl e ↦ rw (e, cancel_live) v
          | inr (jobs, e) ↦ rw (e, cancel_live) (finalize-IsValid release job "" w.db v)
        ])

lock-cancelled :
    (tenant job message : String) (rows rows' : List GenerationJob)
    → cancel_generation_job job tenant message rows ≡ some rows'
    → (lock_generation_job job tenant rows' ≡ some cancelled)
      × (j : GenerationJob) × (find_row job_key job rows' ≡ some j)
      × (j.status ≡ cancelled)
unfolding cancel_generation_job lock_generation_job
lock-cancelled tenant job message rows rows' h =
    let (j, found, of_tenant, _, e) =
      update_job-some (λ _. true) (set_cancelled message) job tenant rows rows' h in
    let after : find_row job_key job rows' ≡ some (set_cancelled message j) =
      rw
        (
          e,
          find_row-update_row job_key job job (set_cancelled message) rows (λ i. refl),
          eq_refl job,
          found,
        )
        refl in
    (
      rw (after, lock_generation_job, of_tenant, eq_refl tenant) refl,
      set_cancelled message j,
      after,
      refl,
    )

-- A job that is already cancelled, and whose reservation has been released.
cancel_job_again :
    (tenant job : String) (w : World) (db : Db)
    → lock_generation_job job tenant w.store.jobs ≡ some cancelled
    → w.db ≡ release_in_tx job db
    → cancel_job tenant job w ≡ (done, w)
unfolding cancel_job cancel_locked cancel_by_status
cancel_job_again tenant job w db locked e =
    let freed : release_in_tx job w.db ≡ w.db = rw e (finalize_twice release release job "" db) in
    rw (locked, cancel_job) (ap (λ d. (done, record w { db = d })) freed)

cancel_live_again :
    (s : JobStatus) (tenant job : String) (w : World)
    → cancel_job tenant job w ≡ cancel_live s tenant job w
    → cancel_job tenant job (cancel_live s tenant job w).1 ≡ cancel_live s tenant job w
unfolding cancel_live
cancel_live_again s tenant job w same =
    elim (Option-cases (cancel_generation_job job tenant (cancel_message s) w.store.jobs)) [
      | inl e ↦ rw (e, cancel_live) (rw (e, cancel_live) at same)
      | inr (jobs, e) ↦
          rw (e, cancel_live)
            (cancel_job_again tenant job _ w.db
              (lock-cancelled tenant job (cancel_message s) w.store.jobs jobs e).0 refl)
    ]

cancel_by_status_again :
    (s : JobStatus) (tenant job : String) (w : World)
    → lock_generation_job job tenant w.store.jobs ≡ some s
    → cancel_job tenant job w ≡ cancel_by_status s tenant job w
    → cancel_job tenant job (cancel_by_status s tenant job w).1 ≡ cancel_by_status s tenant job w
unfolding cancel_by_status
cancel_by_status_again queued tenant job w locked same = cancel_live_again queued tenant job w same
cancel_by_status_again running tenant job w locked same =
    cancel_live_again running tenant job w same
cancel_by_status_again preview_ready tenant job w locked same =
    cancel_live_again preview_ready tenant job w same
cancel_by_status_again completed tenant job w locked same = same
cancel_by_status_again failed tenant job w locked same = same
cancel_by_status_again cancelled tenant job w locked same =
    cancel_job_again tenant job (record w { db = release_in_tx job w.db }) w.db locked refl

-- Cancelling a job a second time changes nothing and answers the same: no table of the jobs, no pack and
-- no budget, whatever the first answer was.
pub cancel_job_twice :
    (tenant job : String) (w : World)
    → cancel_job tenant job (cancel_job tenant job w).1 ≡ cancel_job tenant job w
unfolding cancel_job cancel_locked
cancel_job_twice tenant job w = elim (Option-cases (lock_generation_job job tenant w.store.jobs)) [
  | inl e ↦
      let once : cancel_job tenant job w ≡ (refused not_found, w) = rw (e, cancel_job) refl in
      subst (λ r. cancel_job tenant job r.1 ≡ r) (sym once) once
  | inr (s, e) ↦
      let once : cancel_job tenant job w ≡ cancel_by_status s tenant job w =
        rw (e, cancel_job) refl in
      subst (λ r. cancel_job tenant job r.1 ≡ r) (sym once)
        (cancel_by_status_again s tenant job w e once)
]

-- The row of the job is cancelled.
abbrev pub IsCancelled : String → Store → Type 0
IsCancelled job st =
    (j : GenerationJob) × (find_row job_key job st.jobs ≡ some j) × (j.status ≡ cancelled)

cancel_live-IsCancelled :
    (s : JobStatus) (tenant job : String) (w : World)
    → (cancel_live s tenant job w).0 ≡ done
    → IsCancelled job (cancel_live s tenant job w).1.store
unfolding cancel_live
cancel_live-IsCancelled s tenant job w h =
    elim (Option-cases (cancel_generation_job job tenant (cancel_message s) w.store.jobs)) [
      | inl e ↦ cc (rw (e, cancel_live) at h)
      | inr (jobs, e) ↦
          let (_, j, found, status) =
            lock-cancelled tenant job (cancel_message s) w.store.jobs jobs e in
          rw (e, cancel_live) (j, found, status)
    ]

cancel_by_status-IsCancelled :
    (s : JobStatus) (tenant job : String) (w : World)
    → lock_generation_job job tenant w.store.jobs ≡ some s
    → (cancel_by_status s tenant job w).0 ≡ done
    → IsCancelled job (cancel_by_status s tenant job w).1.store
unfolding cancel_by_status
cancel_by_status-IsCancelled queued tenant job w locked h =
    cancel_live-IsCancelled queued tenant job w h
cancel_by_status-IsCancelled running tenant job w locked h =
    cancel_live-IsCancelled running tenant job w h
cancel_by_status-IsCancelled preview_ready tenant job w locked h =
    cancel_live-IsCancelled preview_ready tenant job w h
cancel_by_status-IsCancelled completed tenant job w locked h = cc
cancel_by_status-IsCancelled failed tenant job w locked h = cc
cancel_by_status-IsCancelled cancelled tenant job w locked h =
    lock_generation_job-some job tenant cancelled w.store.jobs locked

cancel_job-IsCancelled :
    (tenant job : String) (w : World)
    → (cancel_job tenant job w).0 ≡ done
    → IsCancelled job (cancel_job tenant job w).1.store
unfolding cancel_job cancel_locked
cancel_job-IsCancelled tenant job w h =
    elim (Option-cases (lock_generation_job job tenant w.store.jobs)) [
      | inl e ↦ cc (rw (e, cancel_job) at h)
      | inr (s, e) ↦
          rw (e, cancel_job)
            (cancel_by_status-IsCancelled s tenant job w e (rw (e, cancel_job) at h))
    ]

-- After a cancel that succeeds, whatever transactions follow, a worker's final output and its preview for
-- the job leave the store as it is.
pub cancel_job-silent :
    (tenant job : String) (w : World) (t : Store)
    → (cancel_job tenant job w).0 ≡ done
    → Reach (cancel_job tenant job w).1.store t
    → (params : StoredAsset) (forced : Bool) (slot : ArtifactSlot) (success : Option PersistSuccess)
      (reservation : Option String)
    → ((insert_final_asset_and_complete_job job tenant params forced slot success reservation t).1
        ≡ t)
      × ((insert_preview_asset_and_mark_preview_ready job tenant params success reservation t).1
          ≡ t)
cancel_job-silent tenant job w t h r params forced slot success reservation =
    let (j, found, e) = cancel_job-IsCancelled tenant job w h in
    Reach-silent job j (cancel_job tenant job w).1.store t r found (rw e refl) tenant params forced
      slot success reservation
