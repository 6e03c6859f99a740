-- ===== src/Reserve/Totals.antt =====
-- The steps that change the liquidity of a reserve, on the integers and on complete data.
use Prim.Native.String.{String}
use lend_core.Prelude.{ℕ, ◌+◌, ◌-◌, ◌≤◌, ◌≡◌, refl, arith, some}
use lend_core.Prelude.Int.{pos, sub_ℕ_ge}
use lend_core.Prelude.Result.{ok}
use lend_core.BigNumber.{integers}
use lend_core.Constants.{percentage_factor}
use lend_core.Types.{ReserveData, Configuration}
use lend_core.Rates.Fixed as Formula
use lend_core.Rates.Fixed.{Strategy, IsValid}
use lend_core.Rates.Values.{
  IsConfigured, calc_expected_usage_ratios-pos, calc_expected_interest_rates-pos,
}
use lend_core.Snapshot.{Snapshot, reserve_of}
use lend_core.State.{
  update_usage_ratios, update_total_liquidity_and_usage_ratio, update_liquidity_and_usage_ratios,
  update_interest_rates,
}
use lend_core.State.Values.{state_after, stable_debt_until, variable_debt_until}
use lend_core.Reserve.Liquidity.{copied, after_liquidity_change}

-- The fields of an object that the steps on the liquidity read.
record HasDebts (expected : ReserveData) (stable variable unbacked : ℕ) : Type 0 where
  stable_known : expected.total_stable_debt ≡ some (pos stable)
  variable_known : expected.total_variable_debt ≡ some (pos variable)
  unbacked_known : expected.unbacked ≡ some (pos unbacked)

-- The object with the liquidity, and with the ratios of the debts to it.
abbrev with_liquidity : ReserveData → ℕ → ℕ → ℕ → ℕ → ReserveData
with_liquidity expected stable variable unbacked available = record expected {
  available_liquidity = some (pos available);
  total_liquidity = some (pos (available + unbacked));
  borrow_usage_ratio = some (pos (Formula.usage_ratio (stable + variable) available));
  supply_usage_ratio = some (pos (Formula.usage_ratio (stable + variable) (available + unbacked)));
}

module _ (expected : ReserveData) (stable variable unbacked available : ℕ)
    (known : HasDebts expected stable variable unbacked) where
  total_liquidity-pos :
      expected.available_liquidity ≡ some (pos available)
      → update_total_liquidity_and_usage_ratio expected
        ≡ ok (with_liquidity expected stable variable unbacked available)
  unfolding update_total_liquidity_and_usage_ratio update_usage_ratios
  total_liquidity-pos e = rw (
    e,
    known.unbacked_known,
    known.stable_known,
    known.variable_known,
    calc_expected_usage_ratios-pos stable variable available (available + unbacked) (omega arith),
  )

-- The reserve after the update of its state, before the liquidity moves.
abbrev accrued : Snapshot → ℕ → ReserveData
accrued s now = state_after s now (copied (reserve_of s))

module _ (name : String) (strategy : Strategy) (valid : IsValid strategy) (params : Configuration)
    (s : Snapshot) (now : ℕ)
    (configured : IsConfigured name strategy valid params s.symbol s.reserve_factor)
    (factor : s.reserve_factor ≤ percentage_factor) where
  abbrev rates_of : ℕ → ReserveData → ReserveData
  rates_of available expected =
      let stable = stable_debt_until s now in
      let variable = variable_debt_until s now in
      record expected {
        liquidity_rate = some (
            pos (
              Formula.liquidity_rate strategy stable variable s.reserve_factor
                s.average_stable_borrow_rate available (available + s.unbacked)));
        stable_borrow_rate =
            some
              (pos (Formula.stable_rate strategy stable variable s.market_stable_rate available));
        variable_borrow_rate =
            some (pos (Formula.variable_rate strategy stable variable available));
      }

  -- The reserve of the natural numbers after the liquidity has changed.
  abbrev pub changed : ℕ → ReserveData
  changed available =
      rates_of available
        (record (with_liquidity (accrued s now) (stable_debt_until s now)
          (variable_debt_until s now) s.unbacked available) {
            average_stable_borrow_rate = some (pos s.average_stable_borrow_rate);
          })

  pub after_liquidity_change-pos :
      (added taken available : ℕ)
      → taken ≤ s.available_liquidity + added
      → s.available_liquidity + added - taken ≡ available
      → after_liquidity_change params (reserve_of s) (accrued s now) (pos added) (pos taken)
        ≡ ok (changed available)
  unfolding after_liquidity_change update_liquidity_and_usage_ratios update_interest_rates
  after_liquidity_change-pos added taken available h e =
      let stable = stable_debt_until s now in
      let variable = variable_debt_until s now in
      let moved = record (accrued s now) { available_liquidity = some (pos available) } in
      rw (
        sub_ℕ_ge (s.available_liquidity + added) taken h,
        e,
        total_liquidity-pos moved stable variable s.unbacked available
            (record { stable_known = refl; variable_known = refl; unbacked_known = refl }) refl,
        calc_expected_interest_rates-pos name strategy valid params s.symbol s.reserve_factor
            s.market_stable_rate stable variable s.average_stable_borrow_rate available
            (available + s.unbacked) configured factor (omega arith),
        total_liquidity-pos (changed available) stable variable s.unbacked available
            (record { stable_known = refl; variable_known = refl; unbacked_known = refl }) refl,
      )
