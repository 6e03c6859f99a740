-- ===== src/State/Values.antt =====
-- The shared steps of calculations.ts on the integers and on complete data.
use lend_core.Prelude.{
  ℕ, ◌+◌, ◌-◌, ◌≤◌, ◌<◌, ◌≡◌, refl, arith, Bool-cases, inl, inr, ◌==◌, ltb, if◌then◌else◌, some,
}
use lend_core.Prelude.Int.{pos, sub_ℕ_ge}
use lend_core.Prelude.Result.{ok}
use lend_core.BigNumber.{integers}
use lend_core.Types.{ReserveData}
use lend_core.WadRay.Fixed
use lend_core.WadRay.Values.{ray_mul-pos, ray_div-pos, percent_mul-pos}
use lend_core.Interest.Fixed as Formula
use lend_core.Interest.{calc_expected_total_stable_debt, calc_expected_total_variable_debt}
use lend_core.Interest.Values.{
  next_liquidity_index, next_variable_borrow_index, calc_compounded_interest-pos,
  calc_expected_liquidity_index-pos, calc_expected_variable_borrow_index-pos,
  calc_expected_total_stable_debt-pos,
}
use lend_core.Interest.Growth.{next_liquidity_index_ge, next_variable_borrow_index_ge}
use lend_core.Snapshot.{Snapshot, reserve_of}
use lend_core.State.{
  accrued_with, total_debt_accrued, calc_expected_accrue_to_treasury, update_state,
}

-- Data that a reserve of the pool has at a time: it was last updated before, its stable debt not
-- after the reserve, and its liquidity index has been initialised.
pub record IsSound (s : Snapshot) (now : ℕ) : Type 0 where
  pub updated : s.last_update_timestamp ≤ now
  pub stable_updated : s.total_stable_debt_last_updated ≤ s.last_update_timestamp
  pub initialised : 0 < s.liquidity_index

unfoldable pub stable_debt_until : Snapshot → ℕ → ℕ
stable_debt_until s now =
    Fixed.mul
      (Formula.compounded s.average_stable_borrow_rate (now - s.total_stable_debt_last_updated))
      s.principal_stable_debt

unfoldable pub variable_debt_until : Snapshot → ℕ → ℕ
variable_debt_until s now = Fixed.mul s.scaled_variable_debt (next_variable_borrow_index s now)

-- The debts as they were at the last update.
unfoldable pub variable_debt_before : Snapshot → ℕ
variable_debt_before s = Fixed.mul s.scaled_variable_debt s.variable_borrow_index

unfoldable pub stable_debt_before : Snapshot → ℕ
stable_debt_before s = Fixed.mul s.principal_stable_debt (
    Formula.compounded s.average_stable_borrow_rate
      (s.last_update_timestamp - s.total_stable_debt_last_updated))

unfoldable pub debt_accrued : Snapshot → ℕ → ℕ
debt_accrued s now =
    variable_debt_until s now
    + stable_debt_until s now
    - variable_debt_before s
    - stable_debt_before s

unfoldable pub next_treasury : Snapshot → ℕ → ℕ
next_treasury s now =
    if s.reserve_factor == 0
    then s.accrued_to_treasury_scaled
    else if ltb 0 (Fixed.percent (debt_accrued s now) s.reserve_factor)
    then s.accrued_to_treasury_scaled
      + Fixed.div (Fixed.percent (debt_accrued s now) s.reserve_factor) (next_liquidity_index s now)
    else s.accrued_to_treasury_scaled

mul_comm : (a b : ℕ) → Fixed.mul a b ≡ Fixed.mul b a
unfolding Fixed.mul
mul_comm a b = omega arith

pub variable_debt_grows :
    (s : Snapshot) (now : ℕ) → variable_debt_before s ≤ variable_debt_until s now
unfolding variable_debt_until variable_debt_before
variable_debt_grows s now =
    Fixed.mul_mono _ _ _ _ (omega arith) (next_variable_borrow_index_ge s now)

pub stable_debt_grows_until :
    (s : Snapshot) (now : ℕ)
    → s.last_update_timestamp ≤ now
    → stable_debt_before s ≤ stable_debt_until s now
unfolding stable_debt_until stable_debt_before
stable_debt_grows_until s now h =
    let tsl = s.total_stable_debt_last_updated in
    rw
      (mul_comm s.principal_stable_debt
        (Formula.compounded s.average_stable_borrow_rate (s.last_update_timestamp - tsl)))
      (Fixed.mul_mono _ _ _ _
        (Formula.compounded_mono s.average_stable_borrow_rate (s.last_update_timestamp - tsl)
          (now - tsl) (omega arith))
        (omega arith))

-- The object after the update of the state, in natural numbers.
abbrev pub state_after : Snapshot → ℕ → ReserveData → ReserveData
state_after s now expected = record expected {
  liquidity_index = some (pos (next_liquidity_index s now));
  variable_borrow_index = some (pos (next_variable_borrow_index s now));
  total_stable_debt = some (pos (stable_debt_until s now));
  total_variable_debt = some (pos (variable_debt_until s now));
  scaled_variable_debt = some (pos s.scaled_variable_debt);
  principal_stable_debt = some (pos s.principal_stable_debt);
  accrued_to_treasury_scaled = some (pos (next_treasury s now));
}

module _ (s : Snapshot) (now : ℕ) (sound : IsSound s now) where
  pub stable_debt_until-pos :
      calc_expected_total_stable_debt
        (pos s.principal_stable_debt)
        (pos s.average_stable_borrow_rate)
        (pos s.total_stable_debt_last_updated)
        (pos now)
      ≡ ok (pos (stable_debt_until s now))
  unfolding stable_debt_until
  stable_debt_until-pos =
      calc_expected_total_stable_debt-pos s.principal_stable_debt s.average_stable_borrow_rate
        s.total_stable_debt_last_updated now (omega (arith, sound.updated, sound.stable_updated))

  total_debt_accrued-pos :
      (next : ReserveData)
      → next.scaled_variable_debt ≡ some (pos s.scaled_variable_debt)
      → next.variable_borrow_index ≡ some (pos (next_variable_borrow_index s now))
      → next.total_stable_debt ≡ some (pos (stable_debt_until s now))
      → total_debt_accrued (reserve_of s) next ≡ ok (pos (debt_accrued s now))
  unfolding total_debt_accrued debt_accrued variable_debt_until variable_debt_before
      stable_debt_before
  total_debt_accrued-pos next e f g =
      let v = variable_debt_grows s now in
      let d = stable_debt_grows_until s now sound.updated in
      rw (
        e,
        f,
        ray_mul-pos s.scaled_variable_debt s.variable_borrow_index,
        ray_mul-pos s.scaled_variable_debt (next_variable_borrow_index s now),
        calc_compounded_interest-pos s.average_stable_borrow_rate s.last_update_timestamp
            s.total_stable_debt_last_updated sound.stable_updated,
        ray_mul-pos s.principal_stable_debt,
        g,
        sub_ℕ_ge (variable_debt_until s now + stable_debt_until s now) (variable_debt_before s)
            (omega arith),
        sub_ℕ_ge (variable_debt_until s now + stable_debt_until s now - variable_debt_before s)
            (stable_debt_before s) (omega arith),
      )

  next_liquidity_index_pos : 0 < next_liquidity_index s now
  next_liquidity_index_pos = omega (arith, sound.initialised, next_liquidity_index_ge s now)

  accrued_with-pos :
      (minted : ℕ)
      → accrued_with
          (some (pos s.accrued_to_treasury_scaled))
          (pos minted)
          (pos (next_liquidity_index s now))
        ≡ ok (
            some (
              pos (
                if ltb 0 minted
                then s.accrued_to_treasury_scaled + Fixed.div minted (next_liquidity_index s now)
                else s.accrued_to_treasury_scaled)))
  unfolding accrued_with
  accrued_with-pos minted = elim (Bool-cases (ltb 0 minted)) [
    | inl some_minted ↦ rw (some_minted, ray_div-pos _ _ next_liquidity_index_pos)
    | inr none_minted ↦ rw none_minted
  ]

  next_treasury-pos :
      (next : ReserveData)
      → next.scaled_variable_debt ≡ some (pos s.scaled_variable_debt)
      → next.variable_borrow_index ≡ some (pos (next_variable_borrow_index s now))
      → next.total_stable_debt ≡ some (pos (stable_debt_until s now))
      → next.liquidity_index ≡ some (pos (next_liquidity_index s now))
      → calc_expected_accrue_to_treasury (reserve_of s) next ≡ ok (some (pos (next_treasury s now)))
  unfolding calc_expected_accrue_to_treasury next_treasury
  next_treasury-pos next e f g i = elim (Bool-cases (s.reserve_factor == 0)) [
    | inl z ↦ rw z
    | inr p ↦ rw (p, total_debt_accrued-pos next e f g, percent_mul-pos, i, accrued_with-pos)
  ]

  pub update_state-pos :
      (expected : ReserveData)
      → update_state (reserve_of s) expected (pos now) ≡ ok (state_after s now expected)
  unfolding update_state calc_expected_total_variable_debt variable_debt_until
  update_state-pos expected = rw (
    calc_expected_liquidity_index-pos s now sound.updated,
    calc_expected_variable_borrow_index-pos s now sound.updated,
    stable_debt_until-pos,
    ray_mul-pos s.scaled_variable_debt (next_variable_borrow_index s now),
    next_treasury-pos
        (record (state_after s now expected) {
          accrued_to_treasury_scaled = expected.accrued_to_treasury_scaled;
        })
        refl refl refl refl,
  )
