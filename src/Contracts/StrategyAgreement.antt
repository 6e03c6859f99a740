-- ===== src/Contracts/StrategyAgreement.antt =====
-- calculations.ts against DefaultReserveInterestRateStrategy.sol.
use Prim.Native.String.{String}
use lend_core.Prelude.{
  ℕ, ◌+◌, ◌-◌, ◌*◌, ◌≤◌, ◌<◌, ◌≡◌, refl, some, arith, ltb, ◌==◌, Bool-cases, inl, inr, ap,
}
use lend_core.Prelude.Int.{pos}
use lend_core.Prelude.Result.{ok}
use lend_core.BigNumber.{BigNumberApi, Documented, Documented-integers}
use lend_core.Constants.{ray, percentage_factor, wad_ray_ratio}
use lend_core.Types.{Configuration}
use lend_core.WadRay.Fixed
use lend_core.Rates.{calc_expected_interest_rates}
use lend_core.Rates.Fixed as Formula
use lend_core.Rates.Fixed.{Strategy, IsValid}
use lend_core.Rates.Values.{IsConfigured, calc_expected_interest_rates-pos}
use lend_core.Contracts.Yul.{max_word}
use lend_core.Contracts.Words.{
  Returns, Returns-some, >>=-Returns, Returns-eq, checked_add, checked-Returns, checked-then,
  checked_sub-Returns,
}
use lend_core.Contracts.WadRayMath
use lend_core.Contracts.Agreement.{
  ray_mul-Returns, ray_div-Returns, percent_mul-Returns, wad_to_ray-then,
}
use lend_core.Contracts.RateStrategy.{
  CalculateInterestRatesParams, debt_ratios, add_excess, add_slope, usage_rates, offset_rate,
  get_overall_borrow_rate, calculate_interest_rates, get_base_stable_borrow_rate,
}

add_excess-Returns :
    (rate slope1 slope2 excess : ℕ)
    → Returns (rate + slope1 + Fixed.mul slope2 excess) (add_excess rate slope1 slope2 excess)
unfolding add_excess
add_excess-Returns rate slope1 slope2 excess =
    let product = Fixed.mul slope2 excess in
    >>=-Returns product _ (WadRayMath.ray_mul slope2 excess) _ (ray_mul-Returns slope2 excess) (
      >>=-Returns (slope1 + product) _ (checked_add slope1 product) _ (checked-Returns _ _ refl)
        (checked-Returns _ _ (omega arith)))

add_slope-Returns :
    (rate slope1 ratio optimum : ℕ)
    → 0 < optimum
    → optimum ≤ max_word
    → Returns
        (rate + Fixed.div (Fixed.mul slope1 ratio) optimum)
        (add_slope rate slope1 ratio optimum)
unfolding add_slope
add_slope-Returns rate slope1 ratio optimum p h =
    let product = Fixed.mul slope1 ratio in
    >>=-Returns product _ (WadRayMath.ray_mul slope1 ratio) _ (ray_mul-Returns slope1 ratio) (
      >>=-Returns (Fixed.div product optimum) _ (WadRayMath.ray_div product optimum) _
        (ray_div-Returns product optimum h p) (checked-Returns _ _ refl))

get_overall_borrow_rate-Returns :
    (stable variable variable_rate stable_rate : ℕ)
    → Returns
        (Formula.overall_borrow_rate stable variable variable_rate stable_rate)
        (get_overall_borrow_rate stable variable variable_rate stable_rate)
unfolding get_overall_borrow_rate Formula.overall_borrow_rate
get_overall_borrow_rate-Returns stable variable variable_rate stable_rate =
    let debt = stable + variable in
    let weighted =
      Fixed.mul (variable * wad_ray_ratio) variable_rate
      + Fixed.mul (stable * wad_ray_ratio) stable_rate in
    checked-then debt debt _ _ refl λ fits. elim (Bool-cases (debt == 0)) [
      | inl z ↦ rw z (Returns-some _)
      | inr p ↦ rw p (
          wad_to_ray-then variable _ _ (omega arith) λ _.
            >>=-Returns _ _ _ _ (ray_mul-Returns (variable * wad_ray_ratio) variable_rate) (
              wad_to_ray-then stable _ _ (omega arith) λ _.
                >>=-Returns _ _ _ _ (ray_mul-Returns (stable * wad_ray_ratio) stable_rate) (
                  checked-then weighted weighted _ _ refl λ _.
                    wad_to_ray-then debt _ _ fits
                      λ wads. ray_div-Returns _ (debt * wad_ray_ratio) wads (ground arith))))
    ]

usage_rates-Returns :
    (s : Strategy) (usage stable variable : ℕ)
    → IsValid s
    → Returns
        (
          Formula.with_usage s.optimal_usage_ratio s.stable_rate_slope1 s.stable_rate_slope2 usage
              stable,
          Formula.with_usage s.optimal_usage_ratio s.variable_rate_slope1 s.variable_rate_slope2
              usage variable,
        )
        (usage_rates s usage stable variable)
unfolding usage_rates Formula.with_usage
usage_rates-Returns s usage stable variable valid =
    let optimum = s.optimal_usage_ratio in
    let excess = Fixed.div (usage - optimum) (ray - optimum) in
    elim (Bool-cases (ltb optimum usage)) [
      | inl above ↦ rw above (
          >>=-Returns (usage - optimum) _ _ _ (checked_sub-Returns usage optimum) (
            >>=-Returns excess _ _ _
              (ray_div-Returns (usage - optimum) (ray - optimum) (omega arith) (omega arith))
              (>>=-Returns _ _ _ _
                (add_excess-Returns stable s.stable_rate_slope1 s.stable_rate_slope2 excess)
                (>>=-Returns _ _ _ _
                  (add_excess-Returns variable s.variable_rate_slope1 s.variable_rate_slope2 excess)
                  (Returns-some _)))))
      | inr below ↦ rw below (
          >>=-Returns _ _ _ _
            (add_slope-Returns stable s.stable_rate_slope1 usage optimum (omega arith)
              (omega arith))
            (>>=-Returns _ _ _ _
              (add_slope-Returns variable s.variable_rate_slope1 usage optimum (omega arith)
                (omega arith))
              (Returns-some _)))
    ]

offset_rate-Returns :
    (s : Strategy) (share stable : ℕ)
    → IsValid s
    → Returns
        (Formula.with_offset s.optimal_stable_to_total_debt_ratio s.stable_rate_excess_offset share
          stable)
        (offset_rate s share stable)
unfolding offset_rate Formula.with_offset
offset_rate-Returns s share stable valid =
    let optimum = s.optimal_stable_to_total_debt_ratio in
    let excess = Fixed.div (share - optimum) (ray - optimum) in
    elim (Bool-cases (ltb optimum share)) [
      | inl above ↦ rw above (
          >>=-Returns (share - optimum) _ _ _ (checked_sub-Returns share optimum) (
            >>=-Returns excess _ _ _
              (ray_div-Returns (share - optimum) (ray - optimum) (omega arith) (omega arith))
              (>>=-Returns _ _ _ _ (ray_mul-Returns s.stable_rate_excess_offset excess)
                (checked-Returns _ _ refl))))
      | inr below ↦ rw below (Returns-some _)
    ]

-- The liquidity that `calculateInterestRates` finds.
abbrev pub available_of : CalculateInterestRatesParams → ℕ
available_of p = p.balance + p.liquidity_added - p.liquidity_taken

div_none : (stable debt : ℕ) → stable ≡ 0 → 0 < debt → Fixed.div stable debt ≡ 0
div_none stable debt e h = rw e (Fixed.zero-div debt h)

no_share : (stable debt : ℕ) → stable ≤ debt → debt ≡ 0 → Formula.stable_share stable debt ≡ 0
unfolding Formula.stable_share
no_share stable debt h e = ground arith

-- The code of the strategy divides a stable debt of zero, too.
share_of : (stable debt : ℕ) → 0 < debt → Fixed.div stable debt ≡ Formula.stable_share stable debt
unfolding Formula.stable_share
share_of stable debt h = elim (Bool-cases (ltb 0 stable)) [
  | inl p ↦ rw p
  | inr z ↦ rw z (div_none stable debt (ground arith) h)
]

debt_ratios-Returns :
    (p : CalculateInterestRatesParams) (debt : ℕ)
    → debt ≡ p.total_stable_debt + p.total_variable_debt
    → debt ≤ max_word
    → Returns
        (
          Formula.stable_share p.total_stable_debt debt,
          Formula.usage_ratio debt (available_of p),
          Formula.usage_ratio debt (available_of p + p.unbacked),
        )
        (debt_ratios p debt)
unfolding debt_ratios Formula.usage_ratio
debt_ratios-Returns p debt sum fits = elim (Bool-cases (debt == 0)) [
  | inl z ↦ rw (z, no_share p.total_stable_debt debt (omega arith) (ground arith)) (Returns-some _)
  | inr q ↦
      rw (q, ← share_of p.total_stable_debt debt (ground arith))
        (>>=-Returns _ _ _ _ (ray_div-Returns p.total_stable_debt debt fits (ground arith)) (
          checked-then (p.balance + p.liquidity_added) (p.balance + p.liquidity_added) _ _ refl λ _.
            >>=-Returns (available_of p) _ _ _ (checked_sub-Returns _ p.liquidity_taken) (
              checked-then _ (available_of p + debt) _ _ refl λ whole.
                >>=-Returns _ _ _ _
                  (ray_div-Returns debt (available_of p + debt) whole (ground arith))
                  (checked-then (available_of p + p.unbacked + debt)
                    (available_of p + debt + p.unbacked) _ _ (omega arith)
                    λ all.
                      >>=-Returns _ _ _ _
                        (ray_div-Returns debt (available_of p + p.unbacked + debt) all
                          (ground arith))
                        (Returns-some _)))))
]

-- The rates that the formulas give for the parameters of the contract.
abbrev rates_of : Strategy → CalculateInterestRatesParams → ℕ × ℕ × ℕ
rates_of s p =
    let stable = p.total_stable_debt in
    let variable = p.total_variable_debt in
    let available = available_of p in
    (
      Formula.liquidity_rate s stable variable p.reserve_factor p.average_stable_borrow_rate
          available (available + p.unbacked),
      Formula.stable_rate s stable variable (s.variable_rate_slope1 + s.base_stable_rate_offset)
          available,
      Formula.variable_rate s stable variable available,
    )

calculate_interest_rates-Returns :
    (s : Strategy) (p : CalculateInterestRatesParams)
    → IsValid s
    → Returns (rates_of s p) (calculate_interest_rates s p)
unfolding calculate_interest_rates get_base_stable_borrow_rate Formula.liquidity_rate
    Formula.stable_rate Formula.variable_rate
calculate_interest_rates-Returns s p valid =
    let stable = p.total_stable_debt in
    let variable = p.total_variable_debt in
    let debt = stable + variable in
    checked-then debt debt _ _ refl λ fits.
      >>=-Returns (s.variable_rate_slope1 + s.base_stable_rate_offset) _ _ _
        (checked-Returns _ _ refl)
        (>>=-Returns _ _ _ _ (debt_ratios-Returns p debt refl fits) (
          >>=-Returns _ _ _ _ (usage_rates-Returns s _ _ _ valid) (
            >>=-Returns _ _ _ _ (offset_rate-Returns s _ _ valid) (
              >>=-Returns _ _ _ _ (get_overall_borrow_rate-Returns stable variable _ _) (
                >>=-Returns _ _ _ _ (ray_mul-Returns _ _) (
                  >>=-Returns _ _ _ _ (checked_sub-Returns percentage_factor p.reserve_factor)
                    (>>=-Returns _ _ _ _ (percent_mul-Returns _ _) (Returns-some _))))))))

module _ ⦃big : BigNumberApi⦄ (doc : Documented big) where
  -- Whatever rates `calculateInterestRates` of a valid strategy returns without reverting, the
  -- TypeScript function returns too, for a symbol under which this strategy and reserve factor are
  -- configured, from the stable rate of the market, `getBaseStableBorrowRate`, and the liquidity
  -- that the contract finds.
  pub interest_rates_agree :
      (name symbol : String) (reserves_params : Configuration) (s : Strategy)
      (p : CalculateInterestRatesParams) (liquidity_rate stable_rate variable_rate : ℕ)
      → (valid : IsValid s) → IsConfigured name s valid reserves_params symbol p.reserve_factor
      → p.reserve_factor ≤ percentage_factor
      → calculate_interest_rates s p ≡ some (liquidity_rate, stable_rate, variable_rate)
      → calc_expected_interest_rates reserves_params
          (some symbol)
          (pos (s.variable_rate_slope1 + s.base_stable_rate_offset))
          (pos p.total_stable_debt)
          (pos p.total_variable_debt)
          (pos p.average_stable_borrow_rate)
          (pos (available_of p))
          (pos (available_of p + p.unbacked))
        ≡ ok (record {
          liquidity_rate = pos liquidity_rate;
          stable_borrow_rate = pos stable_rate;
          variable_borrow_rate = pos variable_rate;
        })
  interest_rates_agree name symbol reserves_params s p liquidity_rate stable_rate variable_rate
        valid found factor e =
      let same =
        Returns-eq (rates_of s p) (liquidity_rate, stable_rate, variable_rate) _
          (calculate_interest_rates-Returns s p valid) e in
      rw
        (
          Documented-integers big doc,
          calc_expected_interest_rates-pos name s valid reserves_params symbol p.reserve_factor
              (s.variable_rate_slope1 + s.base_stable_rate_offset) p.total_stable_debt
              p.total_variable_debt p.average_stable_borrow_rate (available_of p)
              (available_of p + p.unbacked) found factor (omega arith),
        )
        (cc (
          ap (λ (t : ℕ × ℕ × ℕ). t.0) same,
          ap (λ (t : ℕ × ℕ × ℕ). t.1) same,
          ap (λ (t : ℕ × ℕ × ℕ). t.2) same,
        ))
