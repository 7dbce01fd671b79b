-- ===== src/Verification/Budget/Price.antt =====
-- The price of a compute unit that check_compute_budget accepts.
use per.Prelude.{
  ℕ, ◌-◌, ◌≤◌, ◌≡◌, refl, ◌↔◌, ◌⊎◌, inl, inr, Bool, true, false, ◌||◌, List, [], ◌∷◌, arith, ltb,
  leb, if◌then◌else◌, Bool-cases, length, any, ok,
}
use per.Auction.Entities.{Time, Transaction}
use per.Verification.Instructions.{Verifier, Numbered, extract_program_instructions}
use per.Verification.Budget.{
  PrioritizationFeeSample, get_priority_fees, min_fee, recent_fees_period, budgets_of,
  check_budgets, check_compute_budget,
}
use per.Verification.Checks.{fail_if_ok}

-- The price that a transaction offers: 0, unless it sets one.
abbrev pub offered : List ℕ → ℕ
offered [] = 0
offered (budget ∷ budgets) = budget

-- A price is enough when it reaches one of the fees, or when there are none.
abbrev pub IsEnough : ℕ → List PrioritizationFeeSample → Type 0
IsEnough price samples = (samples ≡ []) ⊎ (any (λ s. leb s.fee price) samples ≡ true)

min_step :
    (m fee price : ℕ) (x : Bool)
    → (m ≤ price) ↔ (x ≡ true)
    → ((if ltb m fee then m else fee) ≤ price) ↔ (leb fee price || x ≡ true)
min_step m fee price true (to, from) =
    (λ h. ground arith, λ h. let below = from refl in ground arith)
min_step m fee price false (to, from) = (
  λ h. elim (Bool-cases (leb fee price)) [
    | inl e ↦ rw e refl
    | inr e ↦ let below : m ≤ price = ground arith in absurd (let contra = to below in cc)
  ],
  λ h. ground arith,
)

some_fee :
    (price : ℕ) (s : PrioritizationFeeSample) (samples : List PrioritizationFeeSample)
    → (min_fee (s ∷ samples) ≤ price) ↔ (any (λ s'. leb s'.fee price) (s ∷ samples) ≡ true)
unfolding min_fee
some_fee price s [] = (λ h. ground arith, λ h. ground arith)
some_fee price s (s' ∷ samples) =
    min_step (min_fee (s' ∷ samples)) s.fee price (any (λ s''. leb s''.fee price) (s' ∷ samples))
      (some_fee price s' samples)

min_fee-IsEnough :
    (price : ℕ) (samples : List PrioritizationFeeSample)
    → (min_fee samples ≤ price) ↔ IsEnough price samples
unfolding min_fee
min_fee-IsEnough price [] = (λ h. inl refl, λ h. omega arith)
min_fee-IsEnough price (s ∷ samples) = (
  λ h. inr ((some_fee price s samples).0 h),
  λ h. elim h [ inl e ↦ absurd cc | inr e ↦ (some_fee price s samples).1 e ],
)

budgets_ok :
    (price : ℕ) (budgets : List ℕ)
    → (check_budgets price budgets ≡ ok tt) ↔ ((length budgets ≤ 1) × (price ≤ offered budgets))
unfolding check_budgets
budgets_ok price [] = (
  λ h. let passed = (fail_if_ok _ _).0 h in (omega arith, ground arith),
  λ h. (fail_if_ok _ _).1 (ground arith),
)
budgets_ok price (budget ∷ []) = (
  λ h. let passed = (fail_if_ok _ _).0 h in (omega arith, ground arith),
  λ h. (fail_if_ok _ _).1 (ground arith),
)
budgets_ok price (budget ∷ budget' ∷ budgets) = (λ h. absurd cc, λ h. absurd (omega arith))

-- For a transaction whose instructions of the compute budget program are `instructions`, the budget
-- is accepted exactly when they set at most one price, and that price, or 0 where there is none,
-- reaches one of the fees of the last 15 seconds, if there are any.
pub check_compute_budget_iff :
    (v : Verifier) (now : Time) (samples : List PrioritizationFeeSample) (tx : Transaction)
    (instructions : List Numbered)
    → extract_program_instructions tx v.solana.compute_budget ≡ ok instructions
    → (check_compute_budget v now samples tx ≡ ok tt) ↔ (
        (length (budgets_of v instructions) ≤ 1)
        × IsEnough
            (offered (budgets_of v instructions))
            (get_priority_fees (now - recent_fees_period) samples))
unfolding check_compute_budget
check_compute_budget_iff v now samples tx instructions selected =
    let recent = get_priority_fees (now - recent_fees_period) samples in
    let budgets = budgets_of v instructions in
    let checked = budgets_ok (min_fee recent) budgets in
    let enough = min_fee-IsEnough (offered budgets) recent in
    rw (check_compute_budget, selected)
      (
        λ h. let passed = checked.0 h in (passed.0, enough.0 passed.1),
        λ h. checked.1 (h.0, enough.1 h.1),
      )
