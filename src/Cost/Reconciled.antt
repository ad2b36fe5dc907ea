-- ===== src/Cost/Reconciled.antt =====
-- `ReconcileForReservation` of internal/cost/cost.go: it keeps the budgets' sums, and folds what was
-- reported in exactly once.
use dreamchat_image_platform.Common.{
  ℕ, String, ◌≡◌, refl, sym, ◌∙◌, true, Option, none, some, List, [], ◌∷◌, ◌==◌, ◌&&◌,
  if◌then◌else◌, arith, eq_iff, eq_refl, Bool-cases, inl, inr, Option-cases, subst, ap,
}
use dreamchat_image_platform.Common.Int.{ℤ, sub_ℕ}
use dreamchat_image_platform.Common.Tables.{
  find_row, find_row-update_row, find_row-key, update_row_twice, Distinct,
}
use dreamchat_image_platform.Cost.{Budget, Hold, Reservation, Job, Db}
use dreamchat_image_platform.Cost.Queries.{
  hold_key, job_key, reservation_key, sum_reported_reservation_actual, amount_or_zero,
  set_generation_job_actual_cost_for_reservation,
}
use dreamchat_image_platform.Cost.Events.{upsert_identity_cost_ledger_actual_for_job}
use dreamchat_image_platform.Cost.Lifecycle.{
  is_zero, is_terminal, get_terminal_reservation, list_finalized_budget_holds, adjust_budget_spent,
  adjust_budgets, reconcile_reservation_actual, apply_delta, fold_reported,
  reconcile_for_reservation,
}
use dreamchat_image_platform.Cost.Conservation.{IsConserved, IsValid, update-IsConserved}

adjust_budgets-IsConserved :
    (delta : ℤ) (hs : List Hold) (budgets : List Budget) (holds : List Hold)
    → IsConserved budgets holds
    → IsConserved (adjust_budgets delta hs budgets) holds
unfolding adjust_budgets adjust_budget_spent
adjust_budgets-IsConserved delta [] budgets holds c = c
adjust_budgets-IsConserved delta (h ∷ hs) budgets holds c =
    adjust_budgets-IsConserved delta hs (adjust_budget_spent delta h.cost_budget_id budgets) holds (
      update-IsConserved h.cost_budget_id _ 0 budgets holds holds (λ b. refl) (λ b. ground arith)
        (λ k. ground arith) c)

apply_delta-rest :
    (delta : ℤ) (job : String) (r : Reservation) (db : Db)
    → ((apply_delta delta job r db).reservations ≡ db.reservations)
      × ((apply_delta delta job r db).jobs ≡ db.jobs)
      × ((apply_delta delta job r db).events ≡ db.events)
      × ((apply_delta delta job r db).holds ≡ db.holds)
unfolding apply_delta upsert_identity_cost_ledger_actual_for_job
apply_delta-rest delta job r db = (ground arith, ground arith, ground arith, ground arith)

apply_delta-IsConserved :
    (delta : ℤ) (job : String) (r : Reservation) (db : Db)
    → IsConserved db.budgets db.holds
    → IsConserved (apply_delta delta job r db).budgets db.holds
unfolding apply_delta upsert_identity_cost_ledger_actual_for_job
apply_delta-IsConserved delta job r db c =
    let adjusted = adjust_budgets delta (list_finalized_budget_holds r.id db.holds) db.budgets in
    let kept : IsConserved adjusted db.holds =
      adjust_budgets-IsConserved delta (list_finalized_budget_holds r.id db.holds) db.budgets
        db.holds c in
    let budgets : (apply_delta delta job r db).budgets
        ≡ (if is_zero delta then db.budgets else adjusted) =
      ground arith in
    subst (λ bs. IsConserved bs db.holds) (sym budgets)
      (elim (Bool-cases (is_zero delta)) [ inl e ↦ rw e c | inr e ↦ rw e kept ])

apply_delta-IsValid :
    (delta : ℤ) (job : String) (r : Reservation) (db : Db)
    → IsValid db
    → IsValid (apply_delta delta job r db)
apply_delta-IsValid delta job r db v =
    let same = (apply_delta-rest delta job r db).3 in
    record {
      conserved =
          subst (λ hs. IsConserved (apply_delta delta job r db).budgets hs) (sym same)
            (apply_delta-IsConserved delta job r db v.conserved);
      distinct = subst (Distinct hold_key) (sym same) v.distinct;
    }

-- What has been folded in, before the budgets are adjusted.
abbrev noted : String → Reservation → ℕ → Db → Db
noted job r reported db =
    let updated = reconcile_reservation_actual r.id reported db in
    record updated {
      jobs = set_generation_job_actual_cost_for_reservation (some reported) job r.id updated.jobs;
    }

-- Reconciliation keeps every budget's reserved amount the sum of its open holds and the holds' ids
-- distinct.
pub reconcile_for_reservation-IsValid :
    (job id : String) (db : Db) → IsValid db → IsValid (reconcile_for_reservation job id db)
unfolding reconcile_for_reservation fold_reported reconcile_reservation_actual
reconcile_for_reservation-IsValid job id db v =
    elim (Option-cases (get_terminal_reservation job id db)) [
      | inl e ↦ rw (e, reconcile_for_reservation) v
      | inr (r, e) ↦ elim (Option-cases (sum_reported_reservation_actual job id db.events)) [
        | inl x ↦ rw (e, reconcile_for_reservation, x) v
        | inr (reported, x) ↦
            rw (e, reconcile_for_reservation, x)
              (apply_delta-IsValid (sub_ℕ reported (amount_or_zero r.actual_amount)) job r
                (noted job r reported db)
                (record { conserved = v.conserved; distinct = v.distinct }))
      ]
    ]

set_twice :
    (actual : Option ℕ) (job id : String) (jobs : List Job)
    → set_generation_job_actual_cost_for_reservation actual job id
        (set_generation_job_actual_cost_for_reservation actual job id jobs)
      ≡ set_generation_job_actual_cost_for_reservation actual job id jobs
unfolding set_generation_job_actual_cost_for_reservation
set_twice actual job id jobs =
    update_row_twice job_key job _ jobs (λ j. ground arith) (λ j. ground arith)

apply_delta_zero :
    (n : ℕ) (job : String) (r : Reservation) (db : Db) → apply_delta (sub_ℕ n n) job r db ≡ db
unfolding apply_delta
apply_delta_zero n job r db = let zero : is_zero (sub_ℕ n n) ≡ true = ground arith in rw zero

-- Folding in what is noted already does nothing.
fold_same :
    (job : String) (r : Reservation) (reported : ℕ) (db : Db)
    → r.actual_amount ≡ some reported
    → (noted job r reported db).reservations ≡ db.reservations
    → (noted job r reported db).jobs ≡ db.jobs
    → fold_reported job r reported db ≡ db
unfolding fold_reported reconcile_reservation_actual
fold_same job r reported db e rows jobs = rw e (
    apply_delta_zero reported job r (noted job r reported db)
    ∙ (λ i. record db { reservations = rows i; jobs = jobs i }))

folded-rest :
    (job : String) (r : Reservation) (reported : ℕ) (db : Db)
    → ((fold_reported job r reported db).reservations ≡ (noted job r reported db).reservations)
      × ((fold_reported job r reported db).jobs ≡ (noted job r reported db).jobs)
      × ((fold_reported job r reported db).events ≡ db.events)
unfolding fold_reported reconcile_reservation_actual
folded-rest job r reported db =
    let rest =
      apply_delta-rest (sub_ℕ reported (amount_or_zero r.actual_amount)) job r
        (noted job r reported db) in
    (rest.0, rest.1, rest.2)

fold_twice :
    (job : String) (r : Reservation) (reported : ℕ) (db : Db)
    → fold_reported job
        (record r { actual_amount = some reported })
        reported
        (fold_reported job r reported db)
      ≡ fold_reported job r reported db
unfolding reconcile_reservation_actual
fold_twice job r reported db =
    let (rows, jobs, _) = folded-rest job r reported db in
    fold_same job (record r { actual_amount = some reported }) reported
      (fold_reported job r reported db) refl
      (rw rows (
        update_row_twice reservation_key r.id (λ x. record x { actual_amount = some reported })
          db.reservations (λ x. refl) (λ x. refl)))
      (rw jobs (set_twice (some reported) job r.id db.jobs))

terminal_cases :
    (job id : String) (r : Reservation) (db : Db)
    → get_terminal_reservation job id db ≡ some r
    → (find_row reservation_key id db.reservations ≡ some r)
      × ((r.generation_job_id == job && is_terminal r.status) ≡ true)
unfolding get_terminal_reservation
terminal_cases job id r db h = elim (Option-cases (find_row reservation_key id db.reservations)) [
  | inl e ↦ cc
  | inr (x, e) ↦ elim (Bool-cases (x.generation_job_id == job && is_terminal x.status)) [
    | inl t ↦
        let same : x ≡ r = ground arith in
        (cc, subst (λ y. (y.generation_job_id == job && is_terminal y.status) ≡ true) same t)
    | inr t ↦ ground arith
  ]
]

get_terminal-folded :
    (job id : String) (r : Reservation) (reported : ℕ) (db : Db)
    → get_terminal_reservation job id db ≡ some r
    → get_terminal_reservation job id (fold_reported job r reported db)
      ≡ some (record r { actual_amount = some reported })
unfolding get_terminal_reservation reconcile_reservation_actual
get_terminal-folded job id r reported db h =
    let (found, terminal) = terminal_cases job id r db h in
    let key = find_row-key reservation_key id r db.reservations found in
    rw ((folded-rest job r reported db).0) (
      ground (
        arith,
        found,
        terminal,
        key,
        eq_iff r.id id,
        eq_refl id,
        find_row-update_row reservation_key id r.id
            (λ x. record x { actual_amount = some reported }) db.reservations (λ x. refl),
      ))

reconcile_idle :
    (job id : String) (db : Db)
    → get_terminal_reservation job id db ≡ none
    → reconcile_for_reservation job id db ≡ db
unfolding reconcile_for_reservation
reconcile_idle job id db e = rw (e, reconcile_for_reservation)

reconcile_silent :
    (job id : String) (r : Reservation) (db : Db)
    → get_terminal_reservation job id db ≡ some r
    → sum_reported_reservation_actual job id db.events ≡ none
    → reconcile_for_reservation job id db ≡ db
unfolding reconcile_for_reservation
reconcile_silent job id r db e x = rw (e, reconcile_for_reservation, x)

reconcile_fold :
    (job id : String) (r : Reservation) (reported : ℕ) (db : Db)
    → get_terminal_reservation job id db ≡ some r
    → sum_reported_reservation_actual job id db.events ≡ some reported
    → reconcile_for_reservation job id db ≡ fold_reported job r reported db
unfolding reconcile_for_reservation
reconcile_fold job id r reported db e x = rw (e, reconcile_for_reservation, x)

-- Reconciling a reservation a second time, with nothing reported in between, changes nothing: the
-- difference is applied to the budgets, the job and the ledger once.
pub reconcile_for_reservation_twice :
    (job id : String) (db : Db)
    → reconcile_for_reservation job id (reconcile_for_reservation job id db)
      ≡ reconcile_for_reservation job id db
reconcile_for_reservation_twice job id db =
    elim (Option-cases (get_terminal_reservation job id db)) [
      | inl e ↦ ap (reconcile_for_reservation job id) (reconcile_idle job id db e)
      | inr (r, e) ↦ elim (Option-cases (sum_reported_reservation_actual job id db.events)) [
        | inl x ↦ ap (reconcile_for_reservation job id) (reconcile_silent job id r db e x)
        | inr (reported, x) ↦
            let once = reconcile_fold job id r reported db e x in
            let events = (folded-rest job r reported db).2 in
            ap (reconcile_for_reservation job id) once
            ∙ reconcile_fold job id (record r { actual_amount = some reported }) reported
                (fold_reported job r reported db) (get_terminal-folded job id r reported db e)
                (ap (sum_reported_reservation_actual job id) events ∙ x)
            ∙ fold_twice job r reported db
            ∙ sym once
      ]
    ]
