-- ===== src/Cost/Admission.antt =====
-- `Reserve` of internal/cost/cost.go: the holds keep the budgets' sums, no enforced budget is
-- overdrawn, and a denial leaves no trace in the budgets.
use dreamchat_image_platform.Common.{
  ℕ, ◌+◌, String, ◌≡◌, refl, sym, ◌∙◌, ◌⊎◌, Bool, true, false, Option, none, some, List, [], ◌∷◌,
  ◌==◌, ◌||◌, leb, if◌then◌else◌, arith, eq_iff, eq_refl, Bool-cases, inl, inr, Option-cases,
  length, subst, all_of,
}
use dreamchat_image_platform.Common.Tables.{
  find_row, update_row, find_row-update_row, Distinct, find_row_fresh,
}
use dreamchat_image_platform.Cost.{Period, Budget, Hold, Result, ok, err, Db}
use dreamchat_image_platform.Cost.Queries.{
  budget_key, hold_key, reset_budget, reset_budget_period_if_elapsed, credit, credit_if, admits,
  is_paused_status, reserve_active_budget, reserve_paused_budget, insert_budget_hold,
}
use dreamchat_image_platform.Cost.Reserve.{or_try, reserve_observed, new_hold, hold_budgets}
use dreamchat_image_platform.Cost.Conservation.{
  held, IsConserved, IsValid, update-IsConserved, credit-IsConserved,
}

reset-IsConserved :
    (window : Period → ℕ) (id : String) (budgets : List Budget) (holds : List Hold)
    → IsConserved budgets holds
    → IsConserved (reset_budget_period_if_elapsed window id budgets) holds
unfolding reset_budget_period_if_elapsed
reset-IsConserved window id budgets holds =
    update-IsConserved id (reset_budget window) 0 budgets holds holds (λ b. ground arith)
      (λ b. ground arith) (λ k. ground arith)

-- The row that a hold was taken on was paused, or its cap admitted the amount.
abbrev Credited : ℕ → String → List Budget → List Budget → Type 0
Credited amount id budgets after =
    (b : Budget) × (find_row budget_key id budgets ≡ some b)
    × ((is_paused_status b.status ≡ true) ⊎ (admits amount b ≡ true))
    × (after ≡ update_row budget_key id (credit amount) budgets)

credit_if-some :
    (guard : Budget → Bool) (amount : ℕ) (id : String) (budgets after : List Budget)
    → credit_if guard amount id budgets ≡ some after
    → (b : Budget) × (find_row budget_key id budgets ≡ some b)
      × (guard b ≡ true)
      × (after ≡ update_row budget_key id (credit amount) budgets)
unfolding credit_if
credit_if-some guard amount id budgets after h =
    elim (Option-cases (find_row budget_key id budgets)) [
      | inl e ↦ cc
      | inr (b, e) ↦ elim (Bool-cases (guard b)) [
        | inl g ↦ (b, e, g, ground arith)
        | inr g ↦ ground arith
      ]
    ]

active-Credited :
    (amount : ℕ) (id : String) (budgets after : List Budget)
    → reserve_active_budget amount id budgets ≡ some after
    → Credited amount id budgets after
unfolding reserve_active_budget
active-Credited amount id budgets after h =
    let (b, e, g, x) = credit_if-some (admits amount) amount id budgets after h in (b, e, inr g, x)

paused-Credited :
    (amount : ℕ) (id : String) (budgets after : List Budget)
    → reserve_paused_budget amount id budgets ≡ some after
    → Credited amount id budgets after
unfolding reserve_paused_budget
paused-Credited amount id budgets after h =
    let (b, e, g, x) = credit_if-some (λ b. is_paused_status b.status) amount id budgets after h in
    (b, e, inl g, x)

or_try-some :
    (a b : Option (List Budget)) (after : List Budget)
    → or_try a b ≡ some after
    → (a ≡ some after) ⊎ (b ≡ some after)
or_try-some none b after h = inr h
or_try-some (some x) b after h = inl h

reserve_observed-Credited :
    (observed : Budget) (amount : ℕ) (budgets after : List Budget)
    → reserve_observed observed amount budgets ≡ some after
    → Credited amount observed.id budgets after
unfolding reserve_observed
reserve_observed-Credited observed amount budgets after h =
    let active = reserve_active_budget amount observed.id budgets in
    let paused = reserve_paused_budget amount observed.id budgets in
    let by_active = active-Credited amount observed.id budgets after in
    let by_paused = paused-Credited amount observed.id budgets after in
    elim (Bool-cases (is_paused_status observed.status)) [
      | inl e ↦ elim (or_try-some paused active after (rw e at h)) [
        | inl x ↦ by_paused x
        | inr x ↦ by_active x
      ]
      | inr e ↦ elim (or_try-some active paused after (rw e at h)) [
        | inl x ↦ by_active x
        | inr x ↦ by_paused x
      ]
    ]

insert_budget_hold-ok :
    (h : Hold) (holds after : List Hold)
    → insert_budget_hold h holds ≡ ok after
    → (find_row hold_key h.id holds ≡ none) × (after ≡ h ∷ holds)
unfolding insert_budget_hold
insert_budget_hold-ok h holds after e = elim (Option-cases (find_row hold_key h.id holds)) [
  | inl x ↦ (x, ground arith)
  | inr (old, x) ↦ cc
]

held-new :
    (id hold reservation : String) (b : Budget) (amount : ℕ) (holds : List Hold)
    → held id (new_hold hold reservation b amount ∷ holds)
      ≡ held id holds + (if b.id == id then amount else 0)
unfolding held
held-new id hold reservation b amount holds = ground arith

-- One round of the loop: the budget is rolled over, credited, and its hold stored.
abbrev Steps : (Period → ℕ) → String → String → ℕ → Budget → Db → Db → Type 0
Steps window hold reservation amount b db after =
    Credited amount b.id (reset_budget_period_if_elapsed window b.id db.budgets) after.budgets
    × (find_row hold_key hold db.holds ≡ none)
    × (after.holds ≡ new_hold hold reservation b amount ∷ db.holds)
    × (after.reservations ≡ db.reservations)
    × (after.jobs ≡ db.jobs)

step-IsValid :
    (window : Period → ℕ) (hold reservation : String) (amount : ℕ) (b : Budget) (db after : Db)
    → Steps window hold reservation amount b db after
    → IsValid db
    → IsValid after
step-IsValid window hold reservation amount b db after ((row, f, g, e), fresh, h, _, _) v =
    let budgets = reset_budget_period_if_elapsed window b.id db.budgets in
    let holds = new_hold hold reservation b amount ∷ db.holds in
    let kept =
      credit-IsConserved b.id (credit amount) amount budgets db.holds holds (λ x. refl) (λ x. refl)
        (λ id. held-new id hold reservation b amount db.holds)
        (reset-IsConserved window b.id db.budgets db.holds v.conserved) in
    record {
      conserved =
          subst (λ hs. IsConserved after.budgets hs) (sym h)
            (subst (λ bs. IsConserved bs holds) (sym e) kept);
      distinct =
          subst (Distinct hold_key) (sym h)
            (find_row_fresh hold_key hold db.holds fresh, v.distinct);
    }

-- A successful loop is a sequence of such rounds.
hold_budgets_step :
    (window : Period → ℕ) (ids : ℕ → String) (reservation : String) (amount : ℕ) (b : Budget)
    (rest : List Budget) (db done : Db)
    → hold_budgets window ids reservation amount (b ∷ rest) db ≡ ok (some done)
    → (after : Db) × Steps window (ids (length rest)) reservation amount b db after
      × (hold_budgets window ids reservation amount rest after ≡ ok (some done))
unfolding hold_budgets
hold_budgets_step window ids reservation amount b rest db done h =
    credited_by (reserve_observed b amount (reset_budget_period_if_elapsed window b.id db.budgets))
      refl
  where
    stored_by :
        (credited : List Budget)
        → reserve_observed b amount (reset_budget_period_if_elapsed window b.id db.budgets)
          ≡ some credited
        → (r : Result (List Hold))
        → insert_budget_hold (new_hold (ids (length rest)) reservation b amount) db.holds ≡ r
        → (after : Db) × Steps window (ids (length rest)) reservation amount b db after
          × (hold_budgets window ids reservation amount rest after ≡ ok (some done))
    stored_by credited e (err x) k = cc (rw (e, hold_budgets, k) at h)
    stored_by credited e (ok holds) k =
        let (fresh, same) =
          insert_budget_hold-ok (new_hold (ids (length rest)) reservation b amount) db.holds holds
            k in
        (
          record db { budgets = credited; holds = holds },
          (
            reserve_observed-Credited b amount
                (reset_budget_period_if_elapsed window b.id db.budgets) credited e,
            fresh,
            same,
            refl,
            refl,
          ),
          rw (e, hold_budgets, k) at h,
        )

    credited_by :
        (o : Option (List Budget))
        → reserve_observed b amount (reset_budget_period_if_elapsed window b.id db.budgets) ≡ o
        → (after : Db) × Steps window (ids (length rest)) reservation amount b db after
          × (hold_budgets window ids reservation amount rest after ≡ ok (some done))
    credited_by none e = cc (rw (e, hold_budgets) at h)
    credited_by (some credited) e =
        stored_by credited e
          (insert_budget_hold (new_hold (ids (length rest)) reservation b amount) db.holds) refl

pub hold_budgets-IsValid :
    (window : Period → ℕ) (ids : ℕ → String) (reservation : String) (amount : ℕ) (l : List Budget)
    (db done : Db)
    → hold_budgets window ids reservation amount l db ≡ ok (some done)
    → IsValid db
    → IsValid done
hold_budgets-IsValid window ids reservation amount [] db done h v =
    let same : db ≡ done = unfold hold_budgets in cc in subst IsValid same v
hold_budgets-IsValid window ids reservation amount (b ∷ rest) db done h v =
    let (after, step, more) = hold_budgets_step window ids reservation amount b rest db done h in
    hold_budgets-IsValid window ids reservation amount rest after done more
      (step-IsValid window (ids (length rest)) reservation amount b db after step v)

-- A budget that is paused, or within its limit.
abbrev pub is_within : Option Budget → Bool
is_within none = false
is_within (some b) =
    is_paused_status b.status || leb (b.reserved_amount + b.spent_amount) b.limit_amount

-- A round leaves its own budget within its limit, and every other that was.
step-within :
    (window : Period → ℕ) (hold reservation : String) (amount : ℕ) (b : Budget) (db after : Db)
    → Steps window hold reservation amount b db after
    → (id : String) → ((b.id == id) || is_within (find_row budget_key id db.budgets)) ≡ true
    → is_within (find_row budget_key id after.budgets) ≡ true
unfolding reset_budget_period_if_elapsed
step-within window hold reservation amount b db after ((row, f, g, e), _, _, _, _) id w = rw e (
    ground (
      arith,
      eq_iff b.id id,
      f,
      g,
      find_row-update_row budget_key id b.id (reset_budget window) db.budgets (λ x. ground arith),
      find_row-update_row budget_key id b.id (credit amount)
          (update_row budget_key b.id (reset_budget window) db.budgets) (λ x. refl),
    ))

hold_budgets_keeps :
    (window : Period → ℕ) (ids : ℕ → String) (reservation : String) (amount : ℕ) (l : List Budget)
    (db done : Db)
    → hold_budgets window ids reservation amount l db ≡ ok (some done)
    → (id : String) → is_within (find_row budget_key id db.budgets) ≡ true
    → is_within (find_row budget_key id done.budgets) ≡ true
hold_budgets_keeps window ids reservation amount [] db done h id w =
    let same : db ≡ done = unfold hold_budgets in cc in
    subst (λ x. is_within (find_row budget_key id x.budgets) ≡ true) same w
hold_budgets_keeps window ids reservation amount (b ∷ rest) db done h id w =
    let (after, step, more) = hold_budgets_step window ids reservation amount b rest db done h in
    hold_budgets_keeps window ids reservation amount rest after done more id
      (step-within window (ids (length rest)) reservation amount b db after step id (ground arith))

pub hold_budgets-within :
    (window : Period → ℕ) (ids : ℕ → String) (reservation : String) (amount : ℕ) (l : List Budget)
    (db done : Db)
    → hold_budgets window ids reservation amount l db ≡ ok (some done)
    → all_of (λ b. is_within (find_row budget_key b.id done.budgets)) l ≡ true
hold_budgets-within window ids reservation amount [] db done h = refl
hold_budgets-within window ids reservation amount (b ∷ rest) db done h =
    let (after, step, more) = hold_budgets_step window ids reservation amount b rest db done h in
    ground (
      arith,
      hold_budgets_keeps window ids reservation amount rest after done more b.id (
          step-within window (ids (length rest)) reservation amount b db after step b.id
            (ground (arith, eq_refl b.id))),
      hold_budgets-within window ids reservation amount rest after done more,
    )

-- The loop stores no reservation.
pub hold_budgets-reservations :
    (window : Period → ℕ) (ids : ℕ → String) (reservation : String) (amount : ℕ) (l : List Budget)
    (db done : Db)
    → hold_budgets window ids reservation amount l db ≡ ok (some done)
    → done.reservations ≡ db.reservations
hold_budgets-reservations window ids reservation amount [] db done h = unfold hold_budgets in cc
hold_budgets-reservations window ids reservation amount (b ∷ rest) db done h =
    let (after, step, more) = hold_budgets_step window ids reservation amount b rest db done h in
    hold_budgets-reservations window ids reservation amount rest after done more ∙ step.3

-- Nor does it write to the jobs.
pub hold_budgets-jobs :
    (window : Period → ℕ) (ids : ℕ → String) (reservation : String) (amount : ℕ) (l : List Budget)
    (db done : Db)
    → hold_budgets window ids reservation amount l db ≡ ok (some done)
    → done.jobs ≡ db.jobs
hold_budgets-jobs window ids reservation amount [] db done h = unfold hold_budgets in cc
hold_budgets-jobs window ids reservation amount (b ∷ rest) db done h =
    let (after, step, more) = hold_budgets_step window ids reservation amount b rest db done h in
    hold_budgets-jobs window ids reservation amount rest after done more ∙ step.4
