-- ===== src/Actions/Ignoring.antt =====
-- What a test comes to whose expected result is neither `success` nor `revert`.
use Prim.Native.String.{String}
use package.text.Mathlib.Text.{◌==◌ as str_eq}
use lend_core.Prelude.{◌≡◌, Option, false}
use lend_core.Prelude.Run.{Run, IsReader, bind-IsReader, view-IsReader}
use lend_core.BigNumber.{BigNumberApi}
use lend_core.Types.{RateMode}
use lend_core.Actions.{Suite, by_expected_result}
use lend_core.Actions.Supply.{deposit, withdraw, get_data_before_action}
use lend_core.Actions.Modes.{
  set_use_as_collateral, swap_borrow_rate_mode, rebalance_stable_borrow_rate,
}
use lend_core.Actions.Steps.{value_to_send-IsReader, amount_or_all-IsReader}

by_expected_result-IsReader :
    {State : Type 0} (expected_result : String) (success revert : Run State (Unit {0}))
    → str_eq expected_result "success" ≡ false
    → str_eq expected_result "revert" ≡ false
    → IsReader (by_expected_result expected_result success revert)
unfolding by_expected_result
by_expected_result-IsReader expected_result success revert e f s = rw (e, f)

module _ ⦃big : BigNumberApi⦄ (suite : Suite) where
  pub get_data_before_action-IsReader :
      (symbol user : String) → IsReader (get_data_before_action suite symbol user)
  unfolding get_data_before_action
  get_data_before_action-IsReader symbol user = search (bind-IsReader, view-IsReader)

  -- With an expected result that is neither `success` nor `revert` the test of a deposit, of a
  -- withdrawal, of a use as collateral, of a swap or of a rebalance leaves the chain as it is: it
  -- sends nothing, and compares nothing.
  pub other_results-IsReader :
      (expected_result symbol amount user other : String) (mode : RateMode) (option : Option String)
      → str_eq expected_result "success" ≡ false
      → str_eq expected_result "revert" ≡ false
      → IsReader (deposit suite symbol amount user other option expected_result)
        × IsReader (withdraw suite symbol amount user expected_result)
        × IsReader (set_use_as_collateral suite symbol user other expected_result)
        × IsReader (swap_borrow_rate_mode suite symbol user mode expected_result)
        × IsReader (rebalance_stable_borrow_rate suite symbol user other expected_result)
  unfolding deposit withdraw set_use_as_collateral swap_borrow_rate_mode
      rebalance_stable_borrow_rate
  other_results-IsReader expected_result symbol amount user other mode option e f = (
    (search
        (bind-IsReader, view-IsReader, value_to_send-IsReader, by_expected_result-IsReader, e, f)
        depth 10),
    (search
        (
          bind-IsReader, get_data_before_action-IsReader, amount_or_all-IsReader,
          by_expected_result-IsReader, e, f,
        )
        depth 10),
    (search (bind-IsReader, view-IsReader, by_expected_result-IsReader, e, f) depth 10),
    (search (bind-IsReader, view-IsReader, by_expected_result-IsReader, e, f) depth 10),
    (search (bind-IsReader, view-IsReader, by_expected_result-IsReader, e, f) depth 10),
  )
