-- ===== src/Cost/Conservation.antt =====
-- The budgets of internal/cost/cost.go and their holds: what a budget has reserved is the sum of its
-- open holds.
use dreamchat_image_platform.Common.{
  ℕ, ◌+◌, ◌-◌, String, ◌≡◌, Bool, true, false, some, List, [], ◌∷◌, ◌==◌, ◌&&◌, if◌then◌else◌,
  arith, eq_iff, inl, inr, Option-cases,
}
use dreamchat_image_platform.Common.Tables.{find_row, update_row, find_row-update_row, Distinct}
use dreamchat_image_platform.Cost.{Status, Budget, Hold, Db}
use dreamchat_image_platform.Cost.Queries.{
  budget_key, hold_key, is_reserved, mark_budget_hold_status,
}

abbrev pub counts_for : String → Hold → Bool
counts_for id h = is_reserved h.status && h.cost_budget_id == id

-- The open holds of a budget.
unfoldable pub held : String → List Hold → ℕ
held id [] = 0
held id (h ∷ hs) = if counts_for id h then h.reserved_amount + held id hs else held id hs

abbrev pub IsConserved : List Budget → List Hold → Type 0
IsConserved budgets holds =
    (id : String) (b : Budget)
    → find_row budget_key id budgets ≡ some b
    → b.reserved_amount ≡ held id holds

-- What cost control keeps true of the tables between two transactions.
pub record IsValid (db : Db) : Type 0 where
  pub conserved : IsConserved db.budgets db.holds
  pub distinct : Distinct hold_key db.holds

-- Closing an open hold takes its amount out of its budget's sum, and out of no other.
pub held-mark :
    (id : String) (s : Status) (h : Hold) (holds : List Hold)
    → is_reserved s ≡ false
    → is_reserved h.status ≡ true
    → find_row hold_key h.id holds ≡ some h
    → held id (mark_budget_hold_status s h.id holds)
        + (if h.cost_budget_id == id then h.reserved_amount else 0)
      ≡ held id holds
unfolding held mark_budget_hold_status find_row update_row
held-mark id s h [] closed open_ f = cc
held-mark id s h (x ∷ holds) closed open_ f =
    ground (arith, eq_iff x.id h.id, held-mark id s h holds closed open_)

-- A budget update that takes out what the open holds lose keeps the sums.
pub update-IsConserved :
    (k : String) (f : Budget → Budget) (amount : ℕ) (budgets : List Budget)
    (holds holds' : List Hold)
    → ((b : Budget) → (f b).id ≡ b.id)
    → ((b : Budget) → (f b).reserved_amount ≡ b.reserved_amount - amount)
    → ((id : String) → held id holds' + (if k == id then amount else 0) ≡ held id holds)
    → IsConserved budgets holds
    → IsConserved (update_row budget_key k f budgets) holds'
update-IsConserved k f amount budgets holds holds' same less moved c id b found =
    elim (Option-cases (find_row budget_key id budgets)) [
      | inl e ↦ ground (arith, find_row-update_row budget_key id k f budgets same)
      | inr (old, e) ↦ ground (
        arith,
        find_row-update_row budget_key id k f budgets same,
        c id old e,
        less old,
        moved id,
      )
    ]

-- A budget update that adds what a new open hold counts keeps the sums.
pub credit-IsConserved :
    (k : String) (f : Budget → Budget) (amount : ℕ) (budgets : List Budget)
    (holds holds' : List Hold)
    → ((b : Budget) → (f b).id ≡ b.id)
    → ((b : Budget) → (f b).reserved_amount ≡ b.reserved_amount + amount)
    → ((id : String) → held id holds' ≡ held id holds + (if k == id then amount else 0))
    → IsConserved budgets holds
    → IsConserved (update_row budget_key k f budgets) holds'
credit-IsConserved k f amount budgets holds holds' same more moved c id b found =
    elim (Option-cases (find_row budget_key id budgets)) [
      | inl e ↦ ground (arith, find_row-update_row budget_key id k f budgets same)
      | inr (old, e) ↦ ground (
        arith,
        find_row-update_row budget_key id k f budgets same,
        c id old e,
        more old,
        moved id,
      )
    ]
