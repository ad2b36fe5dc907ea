-- ===== src/Cost/Reported.antt =====
-- The cost events that a finalization stamps or writes (internal/cost/cost.go) never change what
-- providers have reported for the reservation.
use dreamchat_image_platform.Common.{
  ℕ, String, ◌≡◌, refl, sym, ◌∙◌, true, false, Option, none, some, List, [], ◌∷◌, ◌!=◌,
  if◌then◌else◌, arith, Bool-cases, inl, inr, Option-cases, ap, any_of,
}
use dreamchat_image_platform.Cost.{EventStatus, Reservation, CostEvent, Db}
use dreamchat_image_platform.Cost.Queries.{
  is_reported, sum_reported_reservation_actual, list_reserved_budget_holds,
}
use dreamchat_image_platform.Cost.Events.{
  stamp_latest, update_latest_job_cost_event, insert_finalizer_cost_event,
}
use dreamchat_image_platform.Cost.Lifecycle.{
  Target, charges, event_status_of, settle_holds, settle, close_event, record_charge,
  finalize_cost_event,
}
use dreamchat_image_platform.Cost.Settling.{record_charge-tables}
use dreamchat_image_platform.Cost.Once.{settle_holds-rest}

-- The events after a stamp, or as they were.
abbrev after_stamp : List CostEvent → Option (List CostEvent) → List CostEvent
after_stamp events none = events
after_stamp events (some later) = later

module _ (job at : String) (estimated : ℕ) (actual : Option ℕ) (s : EventStatus) where
  sum_none :
      (events : List CostEvent)
      → any_of (is_reported job at) events ≡ false
      → sum_reported_reservation_actual job at events ≡ none
  unfolding sum_reported_reservation_actual
  sum_none [] h = refl
  sum_none (e ∷ events) h = ground (arith, sum_none events)

  stamp-observed :
      (events : List CostEvent)
      → sum_reported_reservation_actual job at
          (after_stamp events (stamp_latest true job at estimated actual s events))
        ≡ sum_reported_reservation_actual job at events
  unfolding stamp_latest sum_reported_reservation_actual
  stamp-observed [] = refl
  stamp-observed (e ∷ events) =
      elim (Option-cases (stamp_latest true job at estimated actual s events)) [
        | inl x ↦ ground (arith, x, stamp-observed events)
        | inr (later, x) ↦ ground (arith, x, stamp-observed events)
      ]

  stamp-unobserved :
      (events : List CostEvent)
      → any_of (is_reported job at) events ≡ false
      → any_of
          (is_reported job at)
          (after_stamp events (stamp_latest false job at estimated actual s events))
        ≡ false
  unfolding stamp_latest
  stamp-unobserved [] h = refl
  stamp-unobserved (e ∷ events) h =
      elim (Option-cases (stamp_latest false job at estimated actual s events)) [
        | inl x ↦ ground (arith, x, stamp-unobserved events)
        | inr (later, x) ↦ ground (arith, x, stamp-unobserved events)
      ]

  stamped-sum :
      (events : List CostEvent)
      → sum_reported_reservation_actual job at
          (after_stamp events (update_latest_job_cost_event job at estimated actual s events))
        ≡ sum_reported_reservation_actual job at events
  unfolding update_latest_job_cost_event
  stamped-sum events = elim (Bool-cases (any_of (is_reported job at) events)) [
    | inl seen ↦ rw seen (stamp-observed events)
    | inr unseen ↦ rw unseen (
        sum_none (after_stamp events (stamp_latest false job at estimated actual s events))
          (stamp-unobserved events unseen)
        ∙ sym (sum_none events unseen))
  ]

  inserted-sum :
      (reservation : Option String) (events : List CostEvent)
      → sum_reported_reservation_actual job at
          (insert_finalizer_cost_event job reservation estimated actual s events)
        ≡ sum_reported_reservation_actual job at events
  unfolding insert_finalizer_cost_event sum_reported_reservation_actual
  inserted-sum reservation events = ground arith

  -- Stamping the newest cost event of a reservation, or writing one where the worker wrote none, leaves
  -- the sum that providers reported for the reservation as it was, so no later sum counts the charge
  -- twice.
  pub finalize_cost_event-reported :
      (events : List CostEvent)
      → sum_reported_reservation_actual job at
          (finalize_cost_event job at estimated actual s events)
        ≡ sum_reported_reservation_actual job at events
  unfolding finalize_cost_event
  finalize_cost_event-reported events = elim (Bool-cases (at != "")) [
    | inl given ↦ rw given (go (update_latest_job_cost_event job at estimated actual s events) refl)
    | inr empty ↦ rw empty (inserted-sum none events)
  ]
    where
      go :
          (o : Option (List CostEvent))
          → update_latest_job_cost_event job at estimated actual s events ≡ o
          → sum_reported_reservation_actual job at (elim o [
            | none ↦ insert_finalizer_cost_event job (some at) estimated actual s events
            | some stamped ↦ stamped
          ])
            ≡ sum_reported_reservation_actual job at events
      go none e = inserted-sum (some at) events
      go (some stamped) e = ground (arith, e, stamped-sum events)

-- Settling a reservation that was closed, charge or no charge, leaves the sum that providers reported
-- for it as it was.
pub settle-events :
    (t : Target) (job : String) (r : Reservation) (db : Db)
    → sum_reported_reservation_actual job r.id (settle t job (r, db)).events
      ≡ sum_reported_reservation_actual job r.id db.events
unfolding settle close_event
settle-events t job r db =
    let after = settle_holds t r.actual_amount (list_reserved_budget_holds r.id db.holds) db in
    finalize_cost_event-reported job r.id r.estimated_amount
      (if charges t r.actual_amount then r.actual_amount else none) (event_status_of t)
      (record_charge t job r after).events
    ∙ ap (sum_reported_reservation_actual job r.id) (
        (record_charge-tables t job r after).3
        ∙ (settle_holds-rest t r.actual_amount (list_reserved_budget_holds r.id db.holds) db).2)
