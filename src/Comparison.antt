-- ===== src/Comparison.antt =====
-- test-suites/helpers/actions.ts: the comparison of the data that is read from the contracts with
-- the calculated data.
pub mod Close
pub mod Accepted
pub mod Tolerance
use Prim.Native.String.{String}
use package.text.Mathlib.Text.{◌==◌ as str_eq}
use lend_core.Prelude.{List, [], ◌∷◌, Option, none, some, Bool, true, false, ◌||◌, if◌then◌else◌}
use lend_core.Prelude.Int.{ℤ, pos}
use lend_core.Prelude.Result.{Result, ok, err, type_error, assertion_failed, ◌>>=◌, ◌>>◌, expect}
use lend_core.BigNumber.{BigNumberApi}
use lend_core.Types.{ReserveData, UserReserveData}

pub data Value : Type 0 where
  number : ℤ → Value
  text : String → Value
  flag : Bool → Value

-- The keys of an object in the order of `Object.keys`, with their values; `none` is `undefined`.
abbrev pub Object : Type 0
Object = List (String × Option Value)

-- `object[key]`
unfoldable pub lookup : String → Object → Option Value
lookup key [] = none
lookup key ((k, value) ∷ rest) = if str_eq k key then value else lookup key rest

abbrev pub valued : {A : Type 0} → (A → Value) → Option A → Option Value
valued f none = none
valued f (some a) = some (f a)

-- The keys of the data of a reserve, in the order in which `getReserveData` writes them.
unfoldable pub reserve_object : ReserveData → Object
reserve_object r =
    ("reserveFactor", valued number r.reserve_factor)
    ∷ ("unbacked", valued number r.unbacked)
    ∷ ("accruedToTreasuryScaled", valued number r.accrued_to_treasury_scaled)
    ∷ ("availableLiquidity", valued number r.available_liquidity)
    ∷ ("totalLiquidity", valued number r.total_liquidity)
    ∷ ("borrowUsageRatio", valued number r.borrow_usage_ratio)
    ∷ ("supplyUsageRatio", valued number r.supply_usage_ratio)
    ∷ ("totalStableDebt", valued number r.total_stable_debt)
    ∷ ("totalVariableDebt", valued number r.total_variable_debt)
    ∷ ("liquidityRate", valued number r.liquidity_rate)
    ∷ ("variableBorrowRate", valued number r.variable_borrow_rate)
    ∷ ("stableBorrowRate", valued number r.stable_borrow_rate)
    ∷ ("averageStableBorrowRate", valued number r.average_stable_borrow_rate)
    ∷ ("liquidityIndex", valued number r.liquidity_index)
    ∷ ("variableBorrowIndex", valued number r.variable_borrow_index)
    ∷ ("lastUpdateTimestamp", valued number r.last_update_timestamp)
    ∷ ("totalStableDebtLastUpdated", valued number r.total_stable_debt_last_updated)
    ∷ ("principalStableDebt", valued number r.principal_stable_debt)
    ∷ ("scaledVariableDebt", valued number r.scaled_variable_debt)
    ∷ ("address", valued text r.address)
    ∷ ("hTokenAddress", valued text r.h_token_address)
    ∷ ("symbol", valued text r.symbol)
    ∷ ("decimals", valued number r.decimals)
    ∷ ("marketStableRate", valued number r.market_stable_rate)
    ∷ []

-- The keys of the data of a user that `getUserData` writes, in its order.
unfoldable pub user_object : UserReserveData → Object
user_object u =
    ("scaledHTokenBalance", valued number u.scaled_h_token_balance)
    ∷ ("currentHTokenBalance", valued number u.current_h_token_balance)
    ∷ ("currentStableDebt", valued number u.current_stable_debt)
    ∷ ("currentVariableDebt", valued number u.current_variable_debt)
    ∷ ("principalStableDebt", valued number u.principal_stable_debt)
    ∷ ("scaledVariableDebt", valued number u.scaled_variable_debt)
    ∷ ("stableBorrowRate", valued number u.stable_borrow_rate)
    ∷ ("liquidityRate", valued number u.liquidity_rate)
    ∷ ("usageAsCollateralEnabled", valued flag u.usage_as_collateral_enabled)
    ∷ ("stableRateLastUpdated", valued number u.stable_rate_last_updated)
    ∷ ("walletBalance", valued number u.wallet_balance)
    ∷ []

-- The keys that are skipped
unfoldable pub is_accessory : String → Bool
is_accessory key =
    str_eq key "lastUpdateTimestamp"
    || str_eq key "marketStableRate"
    || str_eq key "symbol"
    || str_eq key "hTokenAddress"
    || str_eq key "decimals"
    || str_eq key "totalStableDebtLastUpdated"

-- What the package of BigNumber does besides: the text of a number, and the number that `eq` reads
-- from an argument of another type.
pub record Conversions : Type 0 where
  pub decimal : ℤ → String
  pub from : Value → Result ℤ

module _ ⦃big : BigNumberApi⦄ (conversions : Conversions) where
  open big use {add, eq}

  -- The seven tests
  unfoldable pub almost_equal : ℤ → ℤ → Bool
  almost_equal expected actual =
      eq actual expected
      || eq (add actual (pos 1)) expected
      || eq actual (add expected (pos 1))
      || eq (add actual (pos 2)) expected
      || eq actual (add expected (pos 2))
      || eq (add actual (pos 3)) expected
      || eq actual (add expected (pos 3))

  -- The same with an expected value that is no BigNumber: it has no method `add`.
  unfoldable pub almost_equal_converted : Value → ℤ → Result (Unit {0})
  almost_equal_converted expected actual = do
    value ← conversions.from expected
    if eq actual value || eq (add actual (pos 1)) value then ok tt else err type_error

  unfoldable pub check_number : Option Value → ℤ → Result (Unit {0})
  unfolding almost_equal almost_equal_converted
  check_number none actual = err type_error
  check_number (some (number expected)) actual = expect (almost_equal expected actual)
  check_number (some (text expected)) actual = almost_equal_converted (text expected) actual
  check_number (some (flag expected)) actual = almost_equal_converted (flag expected) actual

  -- `value.toString()`
  unfoldable pub to_string : Value → String
  to_string (number value) = conversions.decimal value
  to_string (text value) = value
  to_string (flag true) = "true"
  to_string (flag false) = "false"

  unfoldable pub check_text : Option Value → Value → Result (Unit {0})
  unfolding to_string
  check_text none actual = err type_error
  check_text (some expected) actual = expect (str_eq (to_string actual) (to_string expected))

  unfoldable pub check_property : Option Value → Option Value → Result (Unit {0})
  unfolding check_number check_text
  check_property expected none = err assertion_failed
  check_property expected (some (number actual)) = check_number expected actual
  check_property expected (some (text actual)) = check_text expected (text actual)
  check_property expected (some (flag actual)) = check_text expected (flag actual)

  unfoldable pub almost_equal_or_equal : Object → Object → Result (Unit {0})
  unfolding check_property lookup is_accessory
  almost_equal_or_equal expected [] = ok tt
  almost_equal_or_equal expected ((key, value) ∷ rest) = do
    if is_accessory key then ok tt else check_property (lookup key expected) value
    almost_equal_or_equal expected rest

  -- `skip` is `configuration.skipIntegrityCheck`.
  unfoldable pub expect_equal : Bool → Object → Object → Result (Unit {0})
  unfolding almost_equal_or_equal
  expect_equal skip actual expected = if skip then ok tt else almost_equal_or_equal expected actual
