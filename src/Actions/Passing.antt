-- ===== src/Actions/Passing.antt =====
-- What a test that passes has shown: the transaction was mined, and the data that the contracts have
-- after it is close to the calculation.
use Prim.Native.String.{String}
use lend_core.Prelude.{◌≡◌, ◌↔◌, Option, some, false}
use lend_core.Prelude.Int.{ℤ}
use lend_core.Prelude.Result.{ok}
use lend_core.Prelude.Run.{
  follow, Establishes, weaken-Establishes, returned, read-Establishes, reader-Establishes,
}
use lend_core.BigNumber.{BigNumberApi, Documented}
use lend_core.Types.{ReserveData, UserReserveData}
use lend_core.Reserve.Liquidity.{calc_expected_reserve_data_after_deposit}
use lend_core.User.Supply.{calc_expected_user_data_after_deposit}
use lend_core.Comparison.Accepted.{IsClose, IsCloseUser}
use lend_core.Chain.{Call, Receipt, mined}
use lend_core.Chain.Reading.{ContractsData, get_contracts_data, convert_to_currency_decimals}
use lend_core.Actions.{
  Suite, submit, await_mined, value_to_send, get_tx_cost_and_timestamp, by_expected_result,
}
use lend_core.Actions.Supply.{deposit_succeeds, deposit}
use lend_core.Actions.Steps.{
  submit-Establishes, await_mined-Establishes, get_tx_cost_and_timestamp-IsReader,
  value_to_send-IsReader, expect_reserve-Establishes, expect_user-ends, expect_reserve-IsClose,
  expect_user-IsCloseUser,
}

module _ ⦃big : BigNumberApi⦄ (doc : Documented big) (suite : Suite)
    (checks : suite.skip_integrity_check ≡ false) where
  open suite use {chain, reserves_params}

  -- The transaction was mined, and the data after it is close to that of a deposit.
  pub IsDeposited :
      String → ℤ → String → String → ContractsData → Call → chain.State → chain.State → Type 0
  IsDeposited reserve amount sender on_behalf_of before call s t =
      (receipt : Receipt) × (after : ContractsData) × (tx_cost tx_timestamp : ℤ) × (e : ReserveData)
      × (u : UserReserveData) × (chain.send call s ≡ (mined receipt, t))
      × (get_contracts_data chain reserve on_behalf_of (some sender) t ≡ ok after)
      × (get_tx_cost_and_timestamp suite receipt t ≡ (ok (tx_cost, tx_timestamp), t))
      × (calc_expected_reserve_data_after_deposit reserves_params amount before.reserve_data
            tx_timestamp
          ≡ ok e)
      × (calc_expected_user_data_after_deposit amount before.reserve_data e before.user_data
            tx_timestamp
          ≡ ok u)
      × IsClose e after.reserve_data
      × IsCloseUser u after.user_data

  deposit_succeeds-IsDeposited :
      (reserve : String) (amount : ℤ) (sender on_behalf_of : String) (before : ContractsData)
      (call : Call) (s : chain.State)
      → Establishes
          (λ done t. IsDeposited reserve amount sender on_behalf_of before call s t)
          (deposit_succeeds suite reserve amount sender on_behalf_of before call s)
  unfolding deposit_succeeds IsDeposited
  deposit_succeeds-IsDeposited reserve amount sender on_behalf_of before call s =
      submit-Establishes suite _ call _ s (λ outcome r sent.
        await_mined-Establishes _ outcome _ r (λ receipt was_mined.
          read-Establishes _ _ _ r (λ after read.
            reader-Establishes _ (get_tx_cost_and_timestamp suite receipt) _ r
              (get_tx_cost_and_timestamp-IsReader suite receipt)
              (λ costs costed. read-Establishes _ _ _ r (λ e calculated.
                read-Establishes _ _ _ r (λ u calculated_user.
                  expect_reserve-Establishes doc suite checks _ after.reserve_data e _ r (λ close.
                    expect_user-ends doc suite checks _ after.user_data u r (λ close_user. (
                      receipt, after, costs.0, costs.1, e, u, cc, read, costed, calculated,
                      calculated_user, close, close_user,
                    )))))))))

  IsDeposited-succeeds :
      (reserve : String) (amount : ℤ) (sender on_behalf_of : String) (before : ContractsData)
      (call : Call) (s t : chain.State)
      → IsDeposited reserve amount sender on_behalf_of before call s t
      → deposit_succeeds suite reserve amount sender on_behalf_of before call s ≡ (ok tt, t)
  unfolding deposit_succeeds IsDeposited submit await_mined follow
  IsDeposited-succeeds reserve amount sender on_behalf_of before call s t
        (
          receipt, after, tx_cost, tx_timestamp, e, u, sent, read, costed, calculated,
          calculated_user, close, close_user,
        ) =
      rw (
        sent,
        read,
        costed,
        calculated,
        calculated_user,
        expect_reserve-IsClose doc suite checks after.reserve_data e t close,
        expect_user-IsCloseUser doc suite checks after.user_data u t close_user,
      )

  -- The amount was converted, the value to send as well, and the deposit went as calculated.
  pub IsTested :
      String → String → String → String → Option String → chain.State → chain.State → Type 0
  IsTested symbol amount sender on_behalf_of send_value s t =
      (reserve : String) × (n : ℤ) × (value : Option ℤ) × (before : ContractsData)
      × (chain.reserve_address symbol s ≡ ok reserve)
      × (convert_to_currency_decimals chain suite.ethers reserve amount s ≡ ok n)
      × (get_contracts_data chain reserve on_behalf_of (some sender) s ≡ ok before)
      × (value_to_send suite reserve send_value s ≡ (ok value, s))
      × IsDeposited reserve n sender on_behalf_of before
          (Call.deposit sender reserve n on_behalf_of value) s t

  deposit-Establishes :
      (symbol amount sender on_behalf_of : String) (value : Option String) (s : chain.State)
      → Establishes
          (λ done t. IsTested symbol amount sender on_behalf_of value s t)
          (deposit suite symbol amount sender on_behalf_of value "success" s)
  unfolding deposit by_expected_result IsTested
  deposit-Establishes symbol amount sender on_behalf_of value s =
      read-Establishes _ _ _ s (λ reserve found. read-Establishes _ _ _ s (λ n converted.
        read-Establishes _ _ _ s (λ before read.
          reader-Establishes _ (value_to_send suite reserve value) _ s
            (value_to_send-IsReader suite reserve value)
            (λ sent_value sent.
              weaken-Establishes _ _ _
                (deposit_succeeds-IsDeposited reserve n sender on_behalf_of before
                  (Call.deposit sender reserve n on_behalf_of sent_value) s)
                (λ done t d. (reserve, n, sent_value, before, found, converted, read, sent, d))))))

  IsTested-deposit :
      (symbol amount sender on_behalf_of : String) (value : Option String) (s t : chain.State)
      → IsTested symbol amount sender on_behalf_of value s t
      → deposit suite symbol amount sender on_behalf_of value "success" s ≡ (ok tt, t)
  unfolding deposit by_expected_result IsTested follow
  IsTested-deposit symbol amount sender on_behalf_of value s t
        (reserve, n, sent_value, before, found, converted, read, sent, d) =
      rw (
        found,
        converted,
        read,
        sent,
        IsDeposited-succeeds reserve n sender on_behalf_of before
            (Call.deposit sender reserve n on_behalf_of sent_value) s t d,
      )

  -- With the integrity check on, a test of a deposit that must succeed passes, and leaves the chain
  -- in a state, exactly if this is how the deposit went: the contracts gave the data, the chain has
  -- mined the deposit of the converted amount from the state before to the state after, and the
  -- reserve and the user that the contracts have then are as close as the comparison asks to the
  -- data that is calculated from those before and the block's time.
  pub deposit_passes :
      (symbol amount sender on_behalf_of : String) (send_value : Option String) (s t : chain.State)
      → (deposit suite symbol amount sender on_behalf_of send_value "success" s ≡ (ok tt, t))
        ↔ IsTested symbol amount sender on_behalf_of send_value s t
  deposit_passes symbol amount sender on_behalf_of send_value s t = (
    (λ h. returned _ _ tt t (deposit-Establishes symbol amount sender on_behalf_of send_value s) h),
    IsTested-deposit symbol amount sender on_behalf_of send_value s t,
  )
