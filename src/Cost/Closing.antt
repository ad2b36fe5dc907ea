-- ===== src/Cost/Closing.antt =====
-- The guarded terminal UPDATEs of internal/cost/cost.go: each closes one open reservation of its job,
-- or does nothing.
use dreamchat_image_platform.Common.{
  ℕ, String, ◌≡◌, ◌⊎◌, Option, none, some, ◌!=◌, if◌then◌else◌, arith, Bool-cases, inl, inr,
  Option-cases,
}
use dreamchat_image_platform.Common.Tables.{update_row}
use dreamchat_image_platform.Cost.{Reservation, Db}
use dreamchat_image_platform.Cost.Queries.{
  reservation_key, or_else, open_reservation, current_reservation, sum_reported_reservation_actual,
  commit_reservation_by_id, release_reservation_by_id, commit_reservation_for_job,
  release_reservation_for_job,
}
use dreamchat_image_platform.Cost.Lifecycle.{Target, commit, release, status_of, close_reservation}

-- The reservation that a finalization is about.
abbrev pub target_of : String → String → Db → Option String
target_of job id db = if id != "" then some id else current_reservation job db.jobs

abbrev closed_actual : Target → String → String → Reservation → Db → Option ℕ
closed_actual commit job id r db =
    or_else (sum_reported_reservation_actual job id db.events) r.estimated_amount
closed_actual release job id r db = sum_reported_reservation_actual job id db.events

abbrev pub closed_row : Target → String → String → Reservation → Db → Reservation
closed_row t job id r db = record r {
  status = status_of t;
  actual_amount = closed_actual t job id r db;
}

abbrev pub close_row : Target → String → String → Db → Db
close_row t job id db = record db {
  reservations = update_row reservation_key id (λ row. closed_row t job id row db) db.reservations;
}

abbrev close_at : Target → String → String → Db → Option (Reservation × Db)
close_at commit job at db = commit_reservation_by_id job at db
close_at release job at db = release_reservation_by_id job at db

abbrev Closes : Target → String → String → Db → Option (Reservation × Db) → Type 0
Closes t job at db m =
    ((m ≡ none) × (open_reservation job at db.reservations ≡ none))
    ⊎ ((r : Reservation) × (open_reservation job at db.reservations ≡ some r)
        × (m ≡ some (closed_row t job at r db, close_row t job at db)))

close_at-Closes :
    (t : Target) (job at : String) (db : Db) → Closes t job at db (close_at t job at db)
unfolding commit_reservation_by_id release_reservation_by_id
close_at-Closes commit job at db = elim (Option-cases (open_reservation job at db.reservations)) [
  | inl e ↦ inl (rw (e, commit_reservation_by_id), e)
  | inr (r, e) ↦ inr (r, e, rw (e, commit_reservation_by_id))
]
close_at-Closes release job at db = elim (Option-cases (open_reservation job at db.reservations)) [
  | inl e ↦ inl (rw (e, release_reservation_by_id), e)
  | inr (r, e) ↦ inr (r, e, rw (e, release_reservation_by_id))
]

close_reservation-some :
    (t : Target) (job id at : String) (db : Db)
    → target_of job id db ≡ some at
    → close_reservation t job id db ≡ close_at t job at db
unfolding close_reservation commit_reservation_for_job release_reservation_for_job
close_reservation-some commit job id at db e = elim (Bool-cases (id != "")) [
  | inl h ↦ ground arith
  | inr h ↦ ground arith
]
close_reservation-some release job id at db e = elim (Bool-cases (id != "")) [
  | inl h ↦ ground arith
  | inr h ↦ ground arith
]

close_reservation-none :
    (t : Target) (job id : String) (db : Db)
    → target_of job id db ≡ none
    → close_reservation t job id db ≡ none
unfolding close_reservation commit_reservation_for_job release_reservation_for_job
close_reservation-none commit job id db e = elim (Bool-cases (id != "")) [
  | inl h ↦ ground arith
  | inr h ↦ ground arith
]
close_reservation-none release job id db e = elim (Bool-cases (id != "")) [
  | inl h ↦ ground arith
  | inr h ↦ ground arith
]

-- No reservation is named, or the named one is not open, or it is closed.
pub close_cases :
    (t : Target) (job id : String) (db : Db)
    → ((target_of job id db ≡ none) × (close_reservation t job id db ≡ none))
      ⊎ ((at : String) × (target_of job id db ≡ some at)
          × Closes t job at db (close_reservation t job id db))
close_cases t job id db = elim (Option-cases (target_of job id db)) [
  | inl e ↦ inl (e, close_reservation-none t job id db e)
  | inr (at, e) ↦
      inr (at, e, rw (close_reservation-some t job id at db e) (close_at-Closes t job at db))
]
