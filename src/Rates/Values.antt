-- ===== src/Rates/Values.antt =====
-- The rates of calculations.ts on the integers, where the amounts are not negative.
use Prim.Native.String.{String}
use lend_core.Prelude.{
  ℕ, ◌+◌, ◌-◌, ◌*◌, ◌≤◌, ◌≡◌, arith, Bool-cases, inl, inr, ◌==◌, ltb, le→leb, some,
}
use lend_core.Prelude.Int.{pos, sub_ℕ_ge}
use lend_core.Prelude.Result.{ok}
use lend_core.BigNumber.{integers}
use lend_core.Constants.{ray, percentage_factor, wad_ray_ratio}
use lend_core.Types.{InterestRateStrategyParams, Configuration}
use lend_core.WadRay.Fixed
use lend_core.WadRay.Values.{ray_mul-pos, ray_div-pos, percent_mul-pos, wad_to_ray-pos}
use lend_core.Rates.{
  find_reserve, usage_ratio, calc_expected_usage_ratios, calc_expected_overall_borrow_rate,
  add_usage_slopes, add_excess_offset, stable_share, calc_expected_interest_rates,
}
use lend_core.Rates.Fixed as Formula
use lend_core.Rates.Fixed.{Strategy, IsValid}

-- The parameters of the configuration that hold a strategy of natural numbers.
abbrev pub strategy_of : String → Strategy → InterestRateStrategyParams
strategy_of name s = record {
  name = name;
  optimal_usage_ratio = pos s.optimal_usage_ratio;
  base_variable_borrow_rate = pos s.base_variable_borrow_rate;
  variable_rate_slope1 = pos s.variable_rate_slope1;
  variable_rate_slope2 = pos s.variable_rate_slope2;
  stable_rate_slope1 = pos s.stable_rate_slope1;
  stable_rate_slope2 = pos s.stable_rate_slope2;
  base_stable_rate_offset = pos s.base_stable_rate_offset;
  stable_rate_excess_offset = pos s.stable_rate_excess_offset;
  optimal_stable_to_total_debt_ratio = pos s.optimal_stable_to_total_debt_ratio;
}

pub usage_ratio-pos :
    (debt liquidity : ℕ)
    → usage_ratio (pos debt) (pos liquidity) ≡ ok (pos (Formula.usage_ratio debt liquidity))
unfolding usage_ratio Formula.usage_ratio
usage_ratio-pos debt liquidity = elim (Bool-cases (debt == 0)) [
  | inl z ↦ rw z
  | inr p ↦ rw (p, ray_div-pos debt (liquidity + debt) (ground arith))
]

-- More liquidity makes less usage, so that the code's assertion holds.
pub usage_ratio_antitone :
    (debt available total : ℕ)
    → available ≤ total
    → Formula.usage_ratio debt total ≤ Formula.usage_ratio debt available
unfolding Formula.usage_ratio
usage_ratio_antitone debt available total h =
    ground (arith, Fixed.div_antitone debt (available + debt) (total + debt))

pub calc_expected_usage_ratios-pos :
    (stable variable available total : ℕ)
    → available ≤ total
    → calc_expected_usage_ratios (pos stable) (pos variable) (pos available) (pos total)
      ≡ ok (
        pos (Formula.usage_ratio (stable + variable) available),
        pos (Formula.usage_ratio (stable + variable) total),
      )
unfolding calc_expected_usage_ratios
calc_expected_usage_ratios-pos stable variable available total h = rw (
  usage_ratio-pos (stable + variable) available,
  usage_ratio-pos (stable + variable) total,
  le→leb _ _ (usage_ratio_antitone (stable + variable) available total h),
)

pub calc_expected_overall_borrow_rate-pos :
    (stable variable variable_rate stable_rate : ℕ)
    → calc_expected_overall_borrow_rate
        (pos stable)
        (pos variable)
        (pos variable_rate)
        (pos stable_rate)
      ≡ ok (pos (Formula.overall_borrow_rate stable variable variable_rate stable_rate))
unfolding calc_expected_overall_borrow_rate Formula.overall_borrow_rate
calc_expected_overall_borrow_rate-pos stable variable variable_rate stable_rate =
    elim (Bool-cases (stable + variable == 0)) [
      | inl z ↦ rw z
      | inr p ↦ rw (
        p,
        wad_to_ray-pos variable,
        wad_to_ray-pos stable,
        wad_to_ray-pos (stable + variable),
        ray_mul-pos (variable * wad_ray_ratio) variable_rate,
        ray_mul-pos (stable * wad_ray_ratio) stable_rate,
        ray_div-pos _ ((stable + variable) * wad_ray_ratio) (ground arith),
      )
    ]

pub stable_share-pos :
    (stable debt : ℕ)
    → stable ≤ debt
    → stable_share (pos stable) (pos debt) ≡ ok (pos (Formula.stable_share stable debt))
unfolding stable_share Formula.stable_share
stable_share-pos stable debt h = elim (Bool-cases (ltb 0 stable)) [
  | inl p ↦ rw (p, ray_div-pos stable debt (ground arith))
  | inr z ↦ rw z
]

module _ (name : String) (s : Strategy) (valid : IsValid s) where
  optimum_le : s.optimal_usage_ratio ≤ ray
  optimum_le = omega arith

  pub add_usage_slopes-pos :
      (usage stable variable : ℕ)
      → add_usage_slopes (strategy_of name s) (pos usage) (pos stable) (pos variable)
        ≡ ok (
          pos (
              Formula.with_usage s.optimal_usage_ratio s.stable_rate_slope1 s.stable_rate_slope2
                usage stable),
          pos (
              Formula.with_usage s.optimal_usage_ratio s.variable_rate_slope1 s.variable_rate_slope2
                usage variable),
        )
  unfolding add_usage_slopes Formula.with_usage
  add_usage_slopes-pos usage stable variable = elim (Bool-cases (ltb s.optimal_usage_ratio usage)) [
    | inl above ↦ rw (
      above,
      sub_ℕ_ge usage s.optimal_usage_ratio (ground arith),
      sub_ℕ_ge ray s.optimal_usage_ratio optimum_le,
      ray_div-pos _ (ray - s.optimal_usage_ratio) (omega arith),
      ray_mul-pos s.stable_rate_slope2 _,
      ray_mul-pos s.variable_rate_slope2 _,
    )
    | inr below ↦ rw (
      below,
      ray_mul-pos s.stable_rate_slope1 usage,
      ray_div-pos _ s.optimal_usage_ratio valid.optimum_pos,
      ray_mul-pos s.variable_rate_slope1 usage,
      ray_div-pos _ s.optimal_usage_ratio valid.optimum_pos,
    )
  ]

  pub add_excess_offset-pos :
      (share stable : ℕ)
      → add_excess_offset (strategy_of name s) (pos share) (pos stable)
        ≡ ok (
            pos (
              Formula.with_offset s.optimal_stable_to_total_debt_ratio s.stable_rate_excess_offset
                share stable))
  unfolding add_excess_offset Formula.with_offset
  add_excess_offset-pos share stable =
      elim (Bool-cases (ltb s.optimal_stable_to_total_debt_ratio share)) [
        | inl above ↦ rw (
          above,
          sub_ℕ_ge share s.optimal_stable_to_total_debt_ratio (ground arith),
          sub_ℕ_ge ray s.optimal_stable_to_total_debt_ratio (omega arith),
          ray_div-pos _ (ray - s.optimal_stable_to_total_debt_ratio) (omega arith),
          ray_mul-pos s.stable_rate_excess_offset _,
        )
        | inr below ↦ rw below
      ]

  module _ (reserves_params : Configuration) (symbol : String) (reserve_factor : ℕ) where
    -- The configuration holds the strategy and the reserve factor for this symbol.
    abbrev pub IsConfigured : Type 0
    IsConfigured =
        find_reserve (some symbol) reserves_params
        ≡ some (record { reserve_factor = pos reserve_factor; strategy = strategy_of name s })

    pub calc_expected_interest_rates-pos :
        (market stable variable average available total : ℕ)
        → IsConfigured
        → reserve_factor ≤ percentage_factor
        → available ≤ total
        → calc_expected_interest_rates reserves_params
            (some symbol)
            (pos market)
            (pos stable)
            (pos variable)
            (pos average)
            (pos available)
            (pos total)
          ≡ ok (record {
            liquidity_rate =
                pos
                  (Formula.liquidity_rate s stable variable reserve_factor average available total);
            stable_borrow_rate = pos (Formula.stable_rate s stable variable market available);
            variable_borrow_rate = pos (Formula.variable_rate s stable variable available);
          })
    unfolding calc_expected_interest_rates Formula.liquidity_rate Formula.stable_rate
        Formula.variable_rate
    calc_expected_interest_rates-pos market stable variable average available total found factor h =
        rw (
          found,
          calc_expected_usage_ratios-pos stable variable available total h,
          stable_share-pos stable (stable + variable) (omega arith),
          add_usage_slopes-pos (Formula.usage_ratio (stable + variable) available) market
              s.base_variable_borrow_rate,
          add_excess_offset-pos,
          calc_expected_overall_borrow_rate-pos,
          ray_mul-pos,
          sub_ℕ_ge percentage_factor reserve_factor factor,
          percent_mul-pos,
        )
