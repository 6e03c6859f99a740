-- ===== src/Contracts/MathUtils.antt =====
-- contracts/protocol/libraries/math/MathUtils.sol. The block's time stamp is an argument.
use lend_core.Prelude.{ℕ, ◌-◌, ◌*◌, ◌/◌, ◌==◌, ltb, Option, some, if◌then◌else◌}
use lend_core.Constants.{ray, one_year}
use lend_core.Contracts.Words.{checked_add, checked_sub, checked_mul, ◌>>=◌}
use lend_core.Contracts.WadRayMath

abbrev seconds_per_year : ℕ
seconds_per_year = one_year

unfoldable pub calculate_linear_interest : ℕ → ℕ → ℕ → Option ℕ
calculate_linear_interest rate last_update_timestamp block_timestamp = do
  elapsed ← checked_sub block_timestamp last_update_timestamp
  result ← checked_mul rate elapsed
  checked_add ray (result / seconds_per_year)

-- What follows the test for `exp == 0`. The divisions and the two differences are unchecked.
unfoldable pub compounded_terms : ℕ → ℕ → Option ℕ
compounded_terms rate exp = do
  let exp_minus_one = exp - 1
  let exp_minus_two = if ltb 2 exp then exp - 2 else 0
  squared ← WadRayMath.ray_mul rate rate
  let base_power_two = squared / (seconds_per_year * seconds_per_year)
  cubed ← WadRayMath.ray_mul base_power_two rate
  let base_power_three = cubed / seconds_per_year
  pairs ← checked_mul exp exp_minus_one
  second_product ← checked_mul pairs base_power_two
  let second_term = second_product / 2
  triples ← checked_mul pairs exp_minus_two
  third_product ← checked_mul triples base_power_three
  let third_term = third_product / 6
  first_product ← checked_mul rate exp
  first_sum ← checked_add ray (first_product / seconds_per_year)
  second_sum ← checked_add first_sum second_term
  checked_add second_sum third_term

unfoldable pub calculate_compounded_interest : ℕ → ℕ → ℕ → Option ℕ
unfolding compounded_terms
calculate_compounded_interest rate last_update_timestamp current_timestamp = do
  exp ← checked_sub current_timestamp last_update_timestamp
  if exp == 0 then some ray else compounded_terms rate exp
