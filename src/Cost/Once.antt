-- ===== src/Cost/Once.antt =====
-- A reservation is finalized once (internal/cost/cost.go): a second commit or release of any kind is
-- a no-op, and what providers reported is not counted again.
use dreamchat_image_platform.Common.{
  ℕ, String, ◌≡◌, refl, sym, ◌∙◌, Option, none, some, List, [], ◌∷◌, arith, eq_refl, inl, inr, ap,
  ◌==◌, Bool-cases, Option-cases,
}
use dreamchat_image_platform.Common.Tables.{find_row, update_row, find_row-update_row}
use dreamchat_image_platform.Cost.{Reservation, Job, Hold, Db}
use dreamchat_image_platform.Cost.Queries.{
  reservation_key, open_reservation, current_reservation, list_reserved_budget_holds,
  set_generation_job_actual_cost_for_reservation, set_generation_job_actual_cost,
}
use dreamchat_image_platform.Cost.Events.{upsert_identity_cost_ledger_for_job}
use dreamchat_image_platform.Cost.Lifecycle.{
  Target, settle_hold, settle_holds, record_charge, close_event, settle, settle_closed, finalize,
}
use dreamchat_image_platform.Cost.Closing.{target_of, closed_row, close_row, close_cases}
use dreamchat_image_platform.Cost.Settling.{status_of-closed, record_charge-tables}

pub settle_holds-rest :
    (t : Target) (actual : Option ℕ) (l : List Hold) (db : Db)
    → ((settle_holds t actual l db).reservations ≡ db.reservations)
      × ((settle_holds t actual l db).jobs ≡ db.jobs)
      × ((settle_holds t actual l db).events ≡ db.events)
unfolding settle_holds settle_hold
settle_holds-rest t actual [] db = (refl, refl, refl)
settle_holds-rest t actual (h ∷ l) db = settle_holds-rest t actual l (settle_hold t actual h db)

current_reservation-set :
    (actual : Option ℕ) (job job' at : String) (jobs : List Job)
    → current_reservation job (set_generation_job_actual_cost_for_reservation actual job' at jobs)
      ≡ current_reservation job jobs
unfolding current_reservation set_generation_job_actual_cost_for_reservation find_row update_row
current_reservation-set actual job job' at [] = refl
current_reservation-set actual job job' at (j ∷ jobs) =
    ground (arith, current_reservation-set actual job job' at jobs)

current_reservation-set_all :
    (actual : Option ℕ) (job job' : String) (jobs : List Job)
    → current_reservation job (set_generation_job_actual_cost actual job' jobs)
      ≡ current_reservation job jobs
unfolding current_reservation set_generation_job_actual_cost find_row update_row
current_reservation-set_all actual job job' [] = refl
current_reservation-set_all actual job job' (j ∷ jobs) =
    ground (arith, current_reservation-set_all actual job job' jobs)

record_charge-current :
    (t : Target) (job job' : String) (r : Reservation) (db : Db)
    → current_reservation job (record_charge t job' r db).jobs ≡ current_reservation job db.jobs
unfolding record_charge upsert_identity_cost_ledger_for_job
record_charge-current t job job' r db = ground (
  arith,
  current_reservation-set r.actual_amount job job' r.id db.jobs,
  current_reservation-set_all r.actual_amount job job' db.jobs,
)

-- What a settlement leaves of the tables that decide whether a reservation is open.
pub settle-rest :
    (t : Target) (job : String) (r : Reservation) (db : Db)
    → ((settle t job (r, db)).reservations ≡ db.reservations)
      × (current_reservation job (settle t job (r, db)).jobs ≡ current_reservation job db.jobs)
unfolding settle close_event
settle-rest t job r db =
    let after = settle_holds t r.actual_amount (list_reserved_budget_holds r.id db.holds) db in
    let rest = settle_holds-rest t r.actual_amount (list_reserved_budget_holds r.id db.holds) db in
    (
      ground (arith, record_charge-tables t job r after, rest),
      ground (arith, record_charge-current t job job r after, rest),
    )

open_reservation-close_row :
    (t : Target) (job at : String) (r : Reservation) (db : Db)
    → open_reservation job at db.reservations ≡ some r
    → open_reservation job at (close_row t job at db).reservations ≡ none
unfolding open_reservation
open_reservation-close_row t job at r db e = ground (
  arith,
  eq_refl at,
  find_row-update_row reservation_key at at (λ row. closed_row t job at row db) db.reservations
      (λ row. refl),
  status_of-closed t,
)

-- Closing a row opens none.
open_reservation_closed_again :
    (t : Target) (job at other : String) (r : Reservation) (db : Db)
    → open_reservation job at db.reservations ≡ some r
    → open_reservation job other db.reservations ≡ none
    → open_reservation job other (close_row t job at db).reservations ≡ none
unfolding open_reservation
open_reservation_closed_again t job at other r db e h =
    let row =
      find_row-update_row reservation_key other at (λ row. closed_row t job at row db)
        db.reservations (λ row. refl) in
    elim (Bool-cases (at == other)) [
      | inl x ↦ elim (Option-cases (find_row reservation_key other db.reservations)) [
        | inl f ↦ ground (arith, row)
        | inr (old, f) ↦ ground (arith, row, status_of-closed t)
      ]
      | inr x ↦ ground (arith, row)
    ]

open_reservation_of : String → String → Db → Option Reservation
open_reservation_of job at db = open_reservation job at db.reservations

same : {a : Option String} {x y : String} → a ≡ some x → a ≡ some y → x ≡ y
same p q = cc

-- A finalization of something that is not open does nothing.
finalize_idle :
    (t : Target) (job id : String) (db : Db)
    → ((at : String)
        → target_of job id db ≡ some at
        → open_reservation job at db.reservations ≡ none)
    → finalize t job id db ≡ db
unfolding finalize settle_closed
finalize_idle t job id db idle = elim (close_cases t job id db) [
  | inl (_, e) ↦ rw e
  | inr (at, _, inl (e, _)) ↦ rw e
  | inr (at, here, inr (r, open_, e)) ↦ cc (idle at here)
]

target_of-settle :
    (t : Target) (job id at : String) (r : Reservation) (db : Db)
    → target_of job id (settle t job (r, close_row t job at db)) ≡ target_of job id db
target_of-settle t job id at r db = ground (arith, (settle-rest t job r (close_row t job at db)).1)

-- After a commit or a release every further commit or release that names the same job and reservation
-- changes nothing at all.
pub finalize_twice :
    (t t' : Target) (job id : String) (db : Db)
    → finalize t' job id (finalize t job id db) ≡ finalize t job id db
unfolding finalize settle_closed open_reservation_of
finalize_twice t t' job id db = elim (close_cases t job id db) [
  | inl (nothing, e) ↦ rw e (finalize_idle t' job id db (λ at here. cc))
  | inr (at, here, inl (e, shut)) ↦ rw e (
      finalize_idle t' job id db (λ at' here'.
        ground (arith, shut, ap (λ a. open_reservation_of job a db) (same here here'))))
  | inr (at, here, inr (r, open_, e)) ↦
      let closed = closed_row t job at r db in
      rw e (
        finalize_idle t' job id (settle t job (closed, close_row t job at db)) (λ at' here'.
          ground (
            arith,
            ap (λ a. open_reservation_of job a (close_row t job at db))
                (same here (sym (target_of-settle t job id at closed db) ∙ here')),
            open_reservation-close_row t job at r db open_,
            (settle-rest t job closed (close_row t job at db)).0,
          )))
]

-- A finalization that names no reservation closes the job's current one, leaves the closed ones closed,
-- and the job's current reservation as it is.
pub finalize_closes :
    (t : Target) (job at : String) (db : Db)
    → current_reservation job db.jobs ≡ some at
    → (open_reservation job at (finalize t job "" db).reservations ≡ none)
      × ((other : String)
          → open_reservation job other db.reservations ≡ none
          → open_reservation job other (finalize t job "" db).reservations ≡ none)
      × (current_reservation job (finalize t job "" db).jobs ≡ some at)
unfolding finalize settle_closed
finalize_closes t job at db now = elim (close_cases t job "" db) [
  | inl (nothing, e) ↦ cc
  | inr (at', here, inl (e, shut)) ↦
      let same_one = same now here in rw e (rw same_one shut, λ other h. h, now)
  | inr (at', here, inr (r, open_, e)) ↦
      let closed = closed_row t job at' r db in
      let rest = settle-rest t job closed (close_row t job at' db) in
      let shut = open_reservation-close_row t job at' r db open_ in
      rw (e, rest.0, rest.1)
        (
          rw (same now here) shut,
          λ other h. open_reservation_closed_again t job at' other r db open_ h,
          now,
        )
]
