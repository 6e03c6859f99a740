-- ===== src/State/Growth.antt =====
-- The update of a reserve's state at the start of an action, for every BigNumber that keeps to its
-- documentation.
use lend_core.Prelude.{ℕ, ◌≤◌, ◌≡◌, arith, some}
use lend_core.Prelude.Int.{pos}
use lend_core.Prelude.Result.{ok}
use lend_core.BigNumber.{BigNumberApi, Documented, Documented-integers}
use lend_core.Types.{ReserveData}
use lend_core.WadRay.{ray_mul}
use lend_core.WadRay.Values.{ray_mul-pos}
use lend_core.Interest.Growth.{next_liquidity_index_ge, next_variable_borrow_index_ge}
use lend_core.Snapshot.{Snapshot, reserve_of}
use lend_core.State.{update_state}
use lend_core.State.Values.{
  IsSound, update_state-pos, variable_debt_before, variable_debt_grows, next_treasury,
}

pub next_treasury_ge : (s : Snapshot) (now : ℕ) → s.accrued_to_treasury_scaled ≤ next_treasury s now
unfolding next_treasury
next_treasury_ge s now = ground arith

module _ ⦃big : BigNumberApi⦄ (doc : Documented big) where
  -- The update of the state of complete and sound data returns, whatever has been assigned before.
  -- It writes both indexes, both debts and the treasury's amount and copies the scaled variable
  -- debt and the principal of the stable debt; nothing else changes. No index, no variable debt
  -- and no treasury's amount falls, and without a reserve factor the treasury gets nothing.
  pub update_state_grows :
      (s : Snapshot) (now : ℕ) (expected : ReserveData)
      → IsSound s now
      → (i j stable variable before treasury : ℕ) × (update_state (reserve_of s) expected (pos now)
          ≡ ok (record expected {
            liquidity_index = some (pos i);
            variable_borrow_index = some (pos j);
            total_stable_debt = some (pos stable);
            total_variable_debt = some (pos variable);
            scaled_variable_debt = some (pos s.scaled_variable_debt);
            principal_stable_debt = some (pos s.principal_stable_debt);
            accrued_to_treasury_scaled = some (pos treasury);
          }))
        × (s.liquidity_index ≤ i)
        × (s.variable_borrow_index ≤ j)
        × (ray_mul (pos s.scaled_variable_debt) (pos s.variable_borrow_index) ≡ ok (pos before))
        × (before ≤ variable)
        × (s.accrued_to_treasury_scaled ≤ treasury)
        × (s.reserve_factor ≡ 0 → treasury ≡ s.accrued_to_treasury_scaled)
  unfolding next_treasury variable_debt_before
  update_state_grows s now expected sound = rw (Documented-integers big doc) (
    _,
    _,
    _,
    _,
    variable_debt_before s,
    _,
    update_state-pos s now sound expected,
    next_liquidity_index_ge s now,
    next_variable_borrow_index_ge s now,
    ray_mul-pos s.scaled_variable_debt s.variable_borrow_index,
    variable_debt_grows s now,
    next_treasury_ge s now,
    (λ e. ground arith),
  )
