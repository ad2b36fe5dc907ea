-- ===== src/Cost/Reserving.antt =====
-- The outcomes of `Service.Reserve` (internal/cost/cost.go): a hold, or a denial that leaves the
-- budgets as they were.
use dreamchat_image_platform.Common.{
  ℕ, String, ◌≡◌, ◌≢◌, refl, sym, ◌∙◌, ◌⊎◌, true, false, Option, none, some, List, ◌∷◌, ◌==◌, ◌!=◌,
  arith, eq_refl, Bool-cases, inl, inr, Option-cases, subst, all_of, ap,
}
use dreamchat_image_platform.Common.Tables.{find_row, find_row-update_row, Distinct}
use dreamchat_image_platform.Cost.{
  Period, FailureReason, no_price_entry, budget_exceeded, failed, reserved, Budget, Reservation,
  Result, ok, err, ◌>>=◌, Db,
}
use dreamchat_image_platform.Cost.Queries.{
  ReserveInput, Estimate, budget_key, hold_key, reservation_key, insert_cost_reservation,
  estimate_operation_cost, list_budgets_for_reservation, is_reserved, open_reservation,
  mark_reservation_budget_exceeded,
}
use dreamchat_image_platform.Cost.Reserve.{
  Outcome, select_budgets, hold_budgets, settle_savepoint, reserve_budgets, insert_failed,
  report_hold, reserve_priced, reserve,
}
use dreamchat_image_platform.Cost.Conservation.{IsConserved, IsValid}
use dreamchat_image_platform.Cost.Admission.{
  is_within, hold_budgets-IsValid, hold_budgets-within, hold_budgets-reservations,
  hold_budgets-jobs,
}

-- The budgets that the reservation must fit in.
abbrev pub enforced : ReserveInput → Db → List Budget
enforced i db = select_budgets (list_budgets_for_reservation db.budgets i)

-- Nothing is held, and the stored reservation is closed.
abbrev pub IsDenied : ReserveInput → String → Db → Outcome → Db → Type 0
IsDenied i id db out done =
    (out.reserved_amount ≡ 0)
    × (done.budgets ≡ db.budgets)
    × (done.holds ≡ db.holds)
    × (open_reservation i.job_id id done.reservations ≡ none)

abbrev pub open_row : ReserveInput → String → Estimate → Reservation
open_row i id est = record {
  id = id;
  generation_job_id = i.job_id;
  tenant_id = i.tenant_id;
  estimated_amount = est.estimated_amount;
  reserved_amount = est.estimated_amount;
  actual_amount = none;
  currency = est.currency;
  status = reserved;
  failure_reason = none;
}

-- The one new row of a reservation that is granted, which the outcome reports.
abbrev pub Opened : ReserveInput → String → Db → Outcome → Db → Type 0
Opened i id db out done =
    (est : Estimate) × (done.reservations ≡ open_row i id est ∷ db.reservations)
    × (find_row reservation_key id db.reservations ≡ none)
    × (out.id ≡ id)
    × (out.estimated_amount ≡ est.estimated_amount)

-- The amount is held against every enforced budget, and the stored reservation is open.
abbrev IsHeld : (Period → ℕ) → (ℕ → String) → ReserveInput → String → Db → Outcome → Db → Type 0
IsHeld window ids i id db out done =
    (rows : List Reservation) × (hold_budgets window ids id out.reserved_amount (enforced i db)
        (record db { reservations = rows })
      ≡ ok (some done))
    × (open_reservation i.job_id id done.reservations ≢ none)
    × Opened i id db out done

abbrev Outcomes : (Period → ℕ) → (ℕ → String) → ReserveInput → String → Db → Outcome → Db → Type 0
Outcomes window ids i id db out done =
    ((r : FailureReason) × (out.denied ≡ some r) × IsDenied i id db out done)
    ⊎ ((out.denied ≡ none) × IsHeld window ids i id db out done)

insert_cost_reservation-ok :
    (r : Reservation) (rows after : List Reservation)
    → insert_cost_reservation r rows ≡ ok after
    → after ≡ r ∷ rows
unfolding insert_cost_reservation
insert_cost_reservation-ok r rows after e =
    elim (Option-cases (find_row reservation_key r.id rows)) [
      | inl x ↦ ground arith
      | inr (old, x) ↦ cc
    ]

insert_cost_reservation-fresh :
    (r : Reservation) (rows after : List Reservation)
    → insert_cost_reservation r rows ≡ ok after
    → find_row reservation_key r.id rows ≡ none
unfolding insert_cost_reservation
insert_cost_reservation-fresh r rows after e =
    elim (Option-cases (find_row reservation_key r.id rows)) [ inl x ↦ x | inr (old, x) ↦ cc ]

>>=-ok {ℓ κ} :
    {A : Type ℓ} {B : Type κ} (m : Result A) (f : A → Result B) (b : B)
    → (m >>= f) ≡ ok b
    → (a : A) × (m ≡ ok a) × (f a ≡ ok b)
>>=-ok (ok a) f b h = (a, refl, h)
>>=-ok (err e) f b h = cc

ok_injective {ℓ} : {A : Type ℓ} (a b : A) → ok a ≡ ok b → a ≡ b
ok_injective a b h = cc

-- A closed row that was just stored is not open.
stored_closed :
    (job id : String) (r : Reservation) (rows : List Reservation)
    → r.id ≡ id
    → is_reserved r.status ≡ false
    → open_reservation job id (r ∷ rows) ≡ none
unfolding open_reservation find_row
stored_closed job id r rows e c = ground (arith, eq_refl id, ap (λ k. k == id) e)

pub stored_open :
    (job id : String) (r : Reservation) (rows : List Reservation)
    → r.id ≡ id
    → r.generation_job_id ≡ job
    → is_reserved r.status ≡ true
    → open_reservation job id (r ∷ rows) ≡ some r
unfolding open_reservation find_row
stored_open job id r rows e j o =
    ground (arith, eq_refl id, ap (λ k. k == id) e, eq_refl job, ap (λ k. k == job) j)

insert_failed-Outcomes :
    (window : Period → ℕ) (ids : ℕ → String) (i : ReserveInput) (id : String) (db done : Db)
    (out : Outcome)
    → insert_failed i id db ≡ ok (out, done)
    → Outcomes window ids i id db out done
unfolding insert_failed
insert_failed-Outcomes window ids i id db done out h =
    let (rows, stored, k) = >>=-ok _ _ (out, done) h in
    subst (λ p. Outcomes window ids i id db p.0 p.1) (ok_injective _ (out, done) k)
      (inl (
        no_price_entry,
        refl,
        (
          refl,
          refl,
          refl,
          rw (insert_cost_reservation-ok _ db.reservations rows stored)
              (stored_closed i.job_id id _ db.reservations refl refl),
        ),
      ))

marked_closed :
    (job id : String) (rows : List Reservation)
    → open_reservation job id (mark_reservation_budget_exceeded id rows) ≡ none
unfolding open_reservation mark_reservation_budget_exceeded
marked_closed job id rows = ground (
  arith,
  eq_refl id,
  find_row-update_row reservation_key id id
      (λ r. record r {
        status = failed;
        failure_reason = some budget_exceeded;
        reserved_amount = 0;
      })
      rows (λ r. refl),
)

reported : String → Estimate → Db → Option Db → Outcome × Db
unfolding report_hold
reported id est before o = report_hold id est (settle_savepoint before o)

reported-Outcomes :
    (window : Period → ℕ) (ids : ℕ → String) (i : ReserveInput) (id : String) (est : Estimate)
    (db : Db) (rows : List Reservation)
    → rows ≡ open_row i id est ∷ db.reservations
    → find_row reservation_key id db.reservations ≡ none
    → (o : Option Db)
    → hold_budgets window ids id est.estimated_amount
        (enforced i db)
        (record db { reservations = rows })
      ≡ ok o
    → (let p = reported id est (record db { reservations = rows }) o in
        Outcomes window ids i id db p.0 p.1)
unfolding reported report_hold
reported-Outcomes window ids i id est db rows stored fresh none loop =
    inl (budget_exceeded, refl, (refl, refl, refl, marked_closed i.job_id id rows))
reported-Outcomes window ids i id est db rows stored fresh (some held) loop = inr (
  refl,
  (
    rows,
    loop,
    λ shut.
        (let kept =
            ap (λ x. open_reservation i.job_id id x)
              (hold_budgets-reservations window ids id est.estimated_amount (enforced i db)
                  (record db { reservations = rows }) held loop
                ∙ stored) in
          let opened = stored_open i.job_id id (open_row i id est) db.reservations refl refl refl in
          cc),
    (
      est,
      hold_budgets-reservations window ids id est.estimated_amount (enforced i db)
            (record db { reservations = rows }) held loop
          ∙ stored,
      fresh,
      refl,
      refl,
    ),
  ),
)

reserve_priced-Outcomes :
    (window : Period → ℕ) (ids : ℕ → String) (i : ReserveInput) (id : String) (est : Estimate)
    (db done : Db) (out : Outcome)
    → reserve_priced window ids i id est db ≡ ok (out, done)
    → Outcomes window ids i id db out done
unfolding reserve_priced reserve_budgets reported
reserve_priced-Outcomes window ids i id est db done out h =
    let (rows, stored, k) = >>=-ok _ _ (out, done) h in
    let (held, hold, k') = >>=-ok _ _ (out, done) k in
    let (o, loop, k'') = >>=-ok _ _ held hold in
    subst (λ p. Outcomes window ids i id db p.0 p.1) (ok_injective _ (out, done) k')
      (subst (λ x. Outcomes window ids i id db (report_hold id est x).0 (report_hold id est x).1)
        (ok_injective _ held k'')
        (reported-Outcomes window ids i id est db rows
          (insert_cost_reservation-ok (open_row i id est) db.reservations rows stored)
          (insert_cost_reservation-fresh (open_row i id est) db.reservations rows stored) o loop))

pub reserve-Outcomes :
    (window : Period → ℕ) (ids : ℕ → String) (i : ReserveInput) (id : String) (db done : Db)
    (out : Outcome)
    → reserve window ids i id db ≡ ok (out, done)
    → Outcomes window ids i id db out done
unfolding reserve
reserve-Outcomes window ids i id db done out h =
    elim (Option-cases (estimate_operation_cost db.prices i)) [
      | inl e ↦ insert_failed-Outcomes window ids i id db done out (rw (e, reserve) at h)
      | inr (est, e) ↦ elim (Bool-cases (est.unit_type != "image")) [
        | inl u ↦ insert_failed-Outcomes window ids i id db done out (rw (e, reserve, u) at h)
        | inr u ↦ reserve_priced-Outcomes window ids i id est db done out (rw (e, reserve, u) at h)
      ]
    ]

-- Whatever the outcome of a reservation that commits, every budget's reserved amount stays the sum of
-- its open holds and the holds' ids stay distinct.
pub reserve-IsValid :
    (window : Period → ℕ) (ids : ℕ → String) (i : ReserveInput) (id : String) (db done : Db)
    (out : Outcome)
    → reserve window ids i id db ≡ ok (out, done)
    → IsValid db
    → IsValid done
reserve-IsValid window ids i id db done out h v =
    elim (reserve-Outcomes window ids i id db done out h) [
      | inl (r, _, (_, budgets, holds, _)) ↦ record {
        conserved =
            subst (λ bs. IsConserved bs done.holds) (sym budgets)
              (subst (λ hs. IsConserved db.budgets hs) (sym holds) v.conserved);
        distinct = subst (Distinct hold_key) (sym holds) v.distinct;
      }
      | inr (_, (rows, loop, _, _)) ↦
          hold_budgets-IsValid window ids id out.reserved_amount (enforced i db)
            (record db { reservations = rows }) done loop
            (record { conserved = v.conserved; distinct = v.distinct })
    ]

-- A reservation that is granted leaves each budget that it had to fit in paused, or with its reserved
-- and spent amounts within the limit, and its stored row is open.
pub reserve-within :
    (window : Period → ℕ) (ids : ℕ → String) (i : ReserveInput) (id : String) (db done : Db)
    (out : Outcome)
    → reserve window ids i id db ≡ ok (out, done)
    → out.denied ≡ none
    → (all_of (λ b. is_within (find_row budget_key b.id done.budgets)) (enforced i db) ≡ true)
      × (open_reservation i.job_id id done.reservations ≢ none)
reserve-within window ids i id db done out h granted =
    elim (reserve-Outcomes window ids i id db done out h) [
      | inl (r, denied, _) ↦ cc
      | inr (_, (rows, loop, opened, _)) ↦ (
        hold_budgets-within window ids id out.reserved_amount (enforced i db)
            (record db { reservations = rows }) done loop,
        opened,
      )
    ]

-- A reservation that is denied, for want of a price or of budget, holds nothing: the budgets, their
-- windows included, and the holds are as they were, and the stored row is not open.
pub reserve-IsDenied :
    (window : Period → ℕ) (ids : ℕ → String) (i : ReserveInput) (id : String) (db done : Db)
    (out : Outcome)
    → reserve window ids i id db ≡ ok (out, done)
    → out.denied ≢ none
    → IsDenied i id db out done
reserve-IsDenied window ids i id db done out h denied =
    elim (reserve-Outcomes window ids i id db done out h) [
      | inl (r, _, facts) ↦ facts
      | inr (granted, _) ↦ absurd (denied granted)
    ]

-- What a reservation that is granted has stored, and that it leaves the jobs.
pub reserve-Opened :
    (window : Period → ℕ) (ids : ℕ → String) (i : ReserveInput) (id : String) (db done : Db)
    (out : Outcome)
    → reserve window ids i id db ≡ ok (out, done)
    → out.denied ≡ none
    → Opened i id db out done × (done.jobs ≡ db.jobs)
reserve-Opened window ids i id db done out h granted =
    elim (reserve-Outcomes window ids i id db done out h) [
      | inl (r, denied, _) ↦ cc
      | inr (_, (rows, loop, _, opened)) ↦ (
        opened,
        hold_budgets-jobs window ids id out.reserved_amount (enforced i db)
            (record db { reservations = rows }) done loop,
      )
    ]
