-- ===== src/Cost/Settling.antt =====
-- The terminal lifecycle of internal/cost/cost.go keeps every budget's reserved amount the sum of its
-- open holds, and leaves none of the reservation's holds open.
use dreamchat_image_platform.Common.{
  ℕ, String, ◌≡◌, refl, sym, true, false, Option, some, List, [], ◌∷◌, arith, Bool-cases, inl, inr,
  All, subst, keep_if, keep_if-All,
}
use dreamchat_image_platform.Common.Tables.{
  find_row, Distinct, Distinct-update_row, Stored, keep_if-Stored, keep_if-update_row,
}
use dreamchat_image_platform.Cost.{Status, Hold, Reservation, Db}
use dreamchat_image_platform.Cost.Queries.{
  hold_key, is_reserved, mark_budget_hold_status, commit_budget_hold, release_budget_hold,
  list_reserved_budget_holds, holds_open,
}
use dreamchat_image_platform.Cost.Events.{upsert_identity_cost_ledger_for_job}
use dreamchat_image_platform.Cost.Lifecycle.{
  Target, commit, release, status_of, charges, settle_hold, settle_holds, record_charge,
  close_event, settle, settle_closed, finalize,
}
use dreamchat_image_platform.Cost.Closing.{closed_row, close_row, close_cases}
use dreamchat_image_platform.Cost.Conservation.{IsConserved, IsValid, held-mark, update-IsConserved}

pub status_of-closed : (t : Target) → is_reserved (status_of t) ≡ false
status_of-closed commit = refl
status_of-closed release = refl

mark-Distinct :
    (s : Status) (id : String) (holds : List Hold)
    → Distinct hold_key holds
    → Distinct hold_key (mark_budget_hold_status s id holds)
unfolding mark_budget_hold_status
mark-Distinct s id holds d = Distinct-update_row hold_key id _ holds (λ h. ground arith) d

-- One round of the loop, for a hold that is stored and open.
settle_hold-IsValid :
    (t : Target) (actual : Option ℕ) (h : Hold) (db : Db)
    → is_reserved h.status ≡ true
    → find_row hold_key h.id db.holds ≡ some h
    → IsValid db
    → IsValid (settle_hold t actual h db)
unfolding settle_hold
settle_hold-IsValid t actual h db o f v = record {
  conserved = elim (Bool-cases (charges t actual)) [
    | inl e ↦ rw e (
        unfold commit_budget_hold in
        update-IsConserved h.cost_budget_id _ h.reserved_amount db.budgets db.holds
          (mark_budget_hold_status (status_of t) h.id db.holds) (λ b. refl) (λ b. refl)
          (λ id. held-mark id (status_of t) h db.holds (status_of-closed t) o f) v.conserved)
    | inr e ↦ rw e (
        unfold release_budget_hold in
        update-IsConserved h.cost_budget_id _ h.reserved_amount db.budgets db.holds
          (mark_budget_hold_status (status_of t) h.id db.holds) (λ b. refl) (λ b. refl)
          (λ id. held-mark id (status_of t) h db.holds (status_of-closed t) o f) v.conserved)
  ];
  distinct = mark-Distinct (status_of t) h.id db.holds v.distinct;
}

-- The loop over the open holds of a reservation closes them all.
settle_holds-IsValid :
    (t : Target) (actual : Option ℕ) (reservation : String) (l : List Hold) (db : Db)
    → list_reserved_budget_holds reservation db.holds ≡ l
    → IsValid db
    → IsValid (settle_holds t actual l db)
      × (list_reserved_budget_holds reservation (settle_holds t actual l db).holds ≡ [])
unfolding settle_holds
settle_holds-IsValid t actual reservation [] db e v = (v, e)
settle_holds-IsValid t actual reservation (h ∷ l) db e v =
    let (stored, _) = keep_if-Stored hold_key (holds_open reservation) db.holds v.distinct in
    let here : find_row hold_key h.id db.holds ≡ some h =
      (subst (Stored hold_key db.holds) e' stored).0 in
    let open_ =
      (subst (All (λ x. holds_open reservation x ≡ true)) e'
        (keep_if-All (holds_open reservation) db.holds)).0 in
    settle_holds-IsValid t actual reservation l (settle_hold t actual h db)
      (unfold list_reserved_budget_holds settle_hold mark_budget_hold_status in
        keep_if-update_row hold_key (holds_open reservation) _ h l db.holds
          (λ x. ground (arith, status_of-closed t)) v.distinct e')
      (settle_hold-IsValid t actual h db (ground arith) here v)
  where
    e' : keep_if (holds_open reservation) db.holds ≡ h ∷ l
    e' = unfold list_reserved_budget_holds in e

pub record_charge-tables :
    (t : Target) (job : String) (r : Reservation) (db : Db)
    → ((record_charge t job r db).budgets ≡ db.budgets)
      × ((record_charge t job r db).holds ≡ db.holds)
      × ((record_charge t job r db).reservations ≡ db.reservations)
      × ((record_charge t job r db).events ≡ db.events)
unfolding record_charge upsert_identity_cost_ledger_for_job
record_charge-tables t job r db = (ground arith, ground arith, ground arith, ground arith)

-- What a settlement does to the tables that the invariant speaks of.
settle-tables :
    (t : Target) (job : String) (r : Reservation) (db : Db)
    → let after = settle_holds t r.actual_amount (list_reserved_budget_holds r.id db.holds) db in
      ((settle t job (r, db)).budgets ≡ after.budgets)
      × ((settle t job (r, db)).holds ≡ after.holds)
unfolding settle close_event
settle-tables t job r db =
    let after = settle_holds t r.actual_amount (list_reserved_budget_holds r.id db.holds) db in
    let same = record_charge-tables t job r after in (same.0, same.1)

pub settle-IsValid :
    (t : Target) (job : String) (r : Reservation) (db : Db)
    → IsValid db
    → IsValid (settle t job (r, db))
      × (list_reserved_budget_holds r.id (settle t job (r, db)).holds ≡ [])
settle-IsValid t job r db v =
    let after = settle_holds t r.actual_amount (list_reserved_budget_holds r.id db.holds) db in
    let (valid, closed) =
      settle_holds-IsValid t r.actual_amount r.id (list_reserved_budget_holds r.id db.holds) db refl
        v in
    let (b, h) = settle-tables t job r db in
    (
      record {
        conserved =
            subst (λ bs. IsConserved bs (settle t job (r, db)).holds) (sym b)
              (subst (λ hs. IsConserved after.budgets hs) (sym h) valid.conserved);
        distinct = subst (Distinct hold_key) (sym h) valid.distinct;
      },
      subst (λ hs. list_reserved_budget_holds r.id hs ≡ []) (sym h) closed,
    )

pub close_row-IsValid :
    (t : Target) (job at : String) (db : Db) → IsValid db → IsValid (close_row t job at db)
close_row-IsValid t job at db v = record { conserved = v.conserved; distinct = v.distinct }

-- Commit and release, by job or by reservation, keep every budget's reserved amount the sum of its
-- open holds and the holds' ids distinct.
pub finalize-IsValid :
    (t : Target) (job id : String) (db : Db) → IsValid db → IsValid (finalize t job id db)
unfolding finalize settle_closed
finalize-IsValid t job id db v = elim (close_cases t job id db) [
  | inl (_, e) ↦ rw e v
  | inr (at, _, inl (e, _)) ↦ rw e v
  | inr (at, _, inr (r, _, e)) ↦
      rw e
        (settle-IsValid t job (closed_row t job at r db) (close_row t job at db)
          (close_row-IsValid t job at db v)).0
]
