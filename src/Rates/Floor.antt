-- ===== src/Rates/Floor.antt =====
-- The least rates of an interest rate strategy, for every BigNumber that keeps to its
-- documentation.
use Prim.Native.String.{String}
use lend_core.Prelude.{ℕ, ◌+◌, ◌≤◌, ◌≡◌, refl, arith, some, ◌<◌}
use lend_core.Prelude.Int.{pos}
use lend_core.Prelude.Result.{ok}
use lend_core.BigNumber.{BigNumberApi, Documented, Documented-integers}
use lend_core.Constants.{percentage_factor}
use lend_core.Types.{Configuration}
use lend_core.WadRay.Fixed
use lend_core.Rates.{calc_expected_interest_rates}
use lend_core.Rates.Fixed as Formula
use lend_core.Rates.Fixed.{Strategy, IsValid}
use lend_core.Rates.Values.{IsConfigured, calc_expected_interest_rates-pos}

with_usage_ge :
    (optimum slope1 slope2 usage rate : ℕ)
    → rate ≤ Formula.with_usage optimum slope1 slope2 usage rate
unfolding Formula.with_usage
with_usage_ge optimum slope1 slope2 usage rate = ground arith

with_offset_ge :
    (optimum offset share rate : ℕ) → rate ≤ Formula.with_offset optimum offset share rate
unfolding Formula.with_offset
with_offset_ge optimum offset share rate = ground arith

mul_zero : (a : ℕ) → Fixed.mul a 0 ≡ 0
unfolding Fixed.mul
mul_zero a = omega arith

unused :
    (optimum slope1 slope2 rate : ℕ)
    → 0 < optimum
    → Formula.with_usage optimum slope1 slope2 0 rate ≡ rate
unfolding Formula.with_usage
unused optimum slope1 slope2 rate p = rw (mul_zero slope1, Fixed.zero-div optimum p) (ground arith)

no_ratio : (liquidity : ℕ) → Formula.usage_ratio 0 liquidity ≡ 0
unfolding Formula.usage_ratio
no_ratio liquidity = refl

module _ ⦃big : BigNumberApi⦄ (doc : Documented big) where
  -- The rates of a configured and valid strategy are returned for all debts and every liquidity
  -- of which not more is available than there is in total. The variable rate is at least the base
  -- rate and the stable rate is at least that of the market; without debt the variable rate is the
  -- base rate.
  pub interest_rates_floor :
      (name symbol : String) (reserves_params : Configuration) (s : Strategy)
      (reserve_factor market stable variable average available total : ℕ)
      → (valid : IsValid s) → IsConfigured name s valid reserves_params symbol reserve_factor
      → reserve_factor ≤ percentage_factor
      → available ≤ total
      → (l st v : ℕ) × (calc_expected_interest_rates reserves_params
            (some symbol)
            (pos market)
            (pos stable)
            (pos variable)
            (pos average)
            (pos available)
            (pos total)
          ≡ ok (record {
            liquidity_rate = pos l;
            stable_borrow_rate = pos st;
            variable_borrow_rate = pos v;
          }))
        × (s.base_variable_borrow_rate ≤ v)
        × (market ≤ st)
        × (stable + variable ≡ 0 → v ≡ s.base_variable_borrow_rate)
  unfolding Formula.variable_rate Formula.stable_rate
  interest_rates_floor name symbol reserves_params s reserve_factor market stable variable average
        available total valid found factor h =
      rw (Documented-integers big doc) (
        Formula.liquidity_rate s stable variable reserve_factor average available total,
        Formula.stable_rate s stable variable market available,
        Formula.variable_rate s stable variable available,
        calc_expected_interest_rates-pos name s valid reserves_params symbol reserve_factor market
            stable variable average available total found factor h,
        with_usage_ge s.optimal_usage_ratio s.variable_rate_slope1 s.variable_rate_slope2
            (Formula.usage_ratio (stable + variable) available) s.base_variable_borrow_rate,
        (let used =
              with_usage_ge s.optimal_usage_ratio s.stable_rate_slope1 s.stable_rate_slope2
                (Formula.usage_ratio (stable + variable) available) market in
            let offset =
              with_offset_ge s.optimal_stable_to_total_debt_ratio s.stable_rate_excess_offset
                (Formula.stable_share stable (stable + variable))
                (Formula.with_usage s.optimal_usage_ratio s.stable_rate_slope1 s.stable_rate_slope2
                  (Formula.usage_ratio (stable + variable) available) market) in
            omega arith),
        (λ e.
            rw (e, no_ratio available)
              (unused s.optimal_usage_ratio s.variable_rate_slope1 s.variable_rate_slope2
                s.base_variable_borrow_rate valid.optimum_pos)),
      )
