-- ===== src/Actions/Refusing.antt =====
-- When a test that expects a revert passes.
use Prim.Native.String.{String}
use lend_core.Prelude.{◌≡◌, refl}
use lend_core.Prelude.Result.{ok}
use lend_core.Prelude.Run.{
  Run, ◌>>=◌, Establishes, returned, read-Establishes, reader-Establishes, nested-Establishes,
  follow,
}
use lend_core.BigNumber.{BigNumberApi}
use lend_core.Chain.{Call, refused}
use lend_core.Prelude.{◌↔◌}
use lend_core.Actions.Calls.{
  PoolTest, deposit_test, withdraw_test, borrow_test, collateral_test, swap_test, rebalance_test,
  IsCall, IsRead, deposit_call, withdraw_all, withdraw_part, borrow_call, collateral_call,
  swap_call, rebalance_call, value_to_send-IsValue, amount_or_all-IsCall, IsValue-value_to_send,
}
use lend_core.Actions.{
  Suite, submit, expect_reverted, by_expected_result, value_to_send, amount_or_all,
}
use lend_core.Actions.Supply.{deposit, withdraw, get_data_before_action}
use lend_core.Actions.Debt.{borrow}
use lend_core.Actions.Modes.{
  set_use_as_collateral, swap_borrow_rate_mode, rebalance_stable_borrow_rate,
}
use lend_core.Actions.Steps.{
  submit-Establishes, expect_reverted-Establishes, value_to_send-IsReader, amount_or_all-IsReader,
}

module _ ⦃big : BigNumberApi⦄ (suite : Suite) where
  open suite use {chain}

  -- The chain has refused the transaction.
  pub IsRefused : Call → chain.State → chain.State → Type 0
  IsRefused call s t = (reason : String) × (chain.send call s ≡ (refused reason, t))

  refusal-Establishes :
      (P : Unit {0} → chain.State → Type 0) (call : Call) (s : chain.State)
      → ((t : chain.State) → IsRefused call s t → P tt t)
      → Establishes P ((submit suite call >>= λ outcome. expect_reverted outcome) s)
  unfolding IsRefused
  refusal-Establishes P call s h =
      submit-Establishes suite _ call _ s
        (λ outcome r sent. expect_reverted-Establishes _ outcome r (λ reason was. h r (reason, cc)))

  -- The test of an account for a reserve, with an expected result
  unfoldable pub run_test : PoolTest → String → String → String → Run chain.State (Unit {0})
  run_test (deposit_test amount other value) symbol user result =
      deposit suite symbol amount user other value result
  run_test (withdraw_test amount) symbol user result = withdraw suite symbol amount user result
  run_test (borrow_test amount mode other travel) symbol user result =
      borrow suite symbol amount mode user other travel result
  run_test (collateral_test option) symbol user result =
      set_use_as_collateral suite symbol user option result
  run_test (swap_test mode) symbol user result = swap_borrow_rate_mode suite symbol user mode result
  run_test (rebalance_test target) symbol user result =
      rebalance_stable_borrow_rate suite symbol user target result

  -- The chain has refused the transaction of the test for the reserve of the symbol.
  pub IsRefusedTest : PoolTest → String → String → chain.State → chain.State → Type 0
  IsRefusedTest test symbol user s t =
      (reserve : String) × (call : Call) × (chain.reserve_address symbol s ≡ ok reserve)
      × IsRead suite user reserve s test
      × IsCall suite user reserve s test call
      × IsRefused call s t

  run_test-Establishes :
      (test : PoolTest) (symbol user : String) (s : chain.State)
      → Establishes
          (λ done t. IsRefusedTest test symbol user s t)
          (run_test test symbol user "revert" s)
  unfolding run_test deposit withdraw borrow set_use_as_collateral swap_borrow_rate_mode
      rebalance_stable_borrow_rate get_data_before_action by_expected_result IsRefusedTest IsRefused
      IsRead Establishes
  run_test-Establishes (deposit_test amount other text) symbol user s =
      read-Establishes _ _ _ s (λ reserve found. read-Establishes _ _ _ s (λ n converted.
        read-Establishes _ _ _ s (λ before read.
          reader-Establishes _ (value_to_send suite reserve text) _ s
            (value_to_send-IsReader suite reserve text)
            (λ value sent.
              let call = Call.deposit user reserve n other value in
              refusal-Establishes _ call s (λ t r. (
                reserve,
                call,
                found,
                (before, read),
                deposit_call amount other text n value converted
                    (value_to_send-IsValue suite reserve text value s sent),
                r,
              ))))))
  run_test-Establishes (withdraw_test amount) symbol user s = nested-Establishes _ _ _ (
      read-Establishes _ _ _ s (λ reserve found. read-Establishes _ _ _ s (λ before read.
        reader-Establishes _ (amount_or_all suite reserve amount) _ s
          (amount_or_all-IsReader suite reserve amount)
          (λ n counted.
            let call = Call.withdraw user reserve n user in
            refusal-Establishes _ call s (λ t r. (
              reserve,
              call,
              found,
              (before, read),
              amount_or_all-IsCall suite user reserve amount n s counted,
              r,
            ))))))
  run_test-Establishes (borrow_test amount mode other travel) symbol user s =
      read-Establishes _ _ _ s (λ reserve found. read-Establishes _ _ _ s (λ before read.
        read-Establishes _ _ _ s (λ tokens read_tokens.
          read-Establishes _ _ _ s (λ allowance allowed. read-Establishes _ _ _ s (λ n converted.
            let call = Call.borrow user reserve n mode other in
            submit-Establishes suite _ call _ s (λ outcome r sent.
              expect_reverted-Establishes _ outcome r (λ reason was. (
                reserve,
                call,
                found,
                (before, tokens, allowance, read, read_tokens, allowed),
                borrow_call amount mode other travel n converted,
                (reason, cc),
              ))))))))
  run_test-Establishes (collateral_test option) symbol user s =
      read-Establishes _ _ _ s (λ reserve found. read-Establishes _ _ _ s (λ before read.
        refusal-Establishes _ _ s
          (λ t r. (reserve, _, found, (before, read), collateral_call option, r))))
  run_test-Establishes (swap_test mode) symbol user s = read-Establishes _ _ _ s (λ reserve found.
      read-Establishes _ _ _ s (λ before read.
        refusal-Establishes _ _ s (λ t r. (reserve, _, found, (before, read), swap_call mode, r))))
  run_test-Establishes (rebalance_test target) symbol user s =
      read-Establishes _ _ _ s (λ reserve found. read-Establishes _ _ _ s (λ before read.
        refusal-Establishes _ _ s
          (λ t r. (reserve, _, found, (before, read), rebalance_call target, r))))

  IsRefusedTest-run :
      (test : PoolTest) (symbol user reserve : String) (call : Call) (s t : chain.State)
      → chain.reserve_address symbol s ≡ ok reserve
      → IsCall suite user reserve s test call
      → IsRead suite user reserve s test
      → IsRefused call s t
      → run_test test symbol user "revert" s ≡ (ok tt, t)
  unfolding run_test deposit withdraw borrow set_use_as_collateral swap_borrow_rate_mode
      rebalance_stable_borrow_rate get_data_before_action by_expected_result IsRefused IsRead
      amount_or_all submit expect_reverted follow
  IsRefusedTest-run test symbol user reserve call s t found
        (deposit_call amount other text n value counted v) (before, read) (reason, sent) =
      rw (found, counted, read, IsValue-value_to_send suite reserve text value s v, sent) refl
  IsRefusedTest-run test symbol user reserve call s t found (withdraw_all amount e) (before, read)
        (reason, sent) =
      rw (found, read, e, sent) refl
  IsRefusedTest-run test symbol user reserve call s t found (withdraw_part amount n e counted)
        (before, read) (reason, sent) =
      rw (found, read, e, counted, sent) refl
  IsRefusedTest-run test symbol user reserve call s t found
        (borrow_call amount mode other travel n counted)
        (before, tokens, allowance, read, read_tokens, allowed) (reason, sent) =
      rw (found, read, read_tokens, allowed, counted, sent) refl
  IsRefusedTest-run test symbol user reserve call s t found (collateral_call option) (before, read)
        (reason, sent) =
      rw (found, read, sent) refl
  IsRefusedTest-run test symbol user reserve call s t found (swap_call mode) (before, read)
        (reason, sent) =
      rw (found, read, sent) refl
  IsRefusedTest-run test symbol user reserve call s t found (rebalance_call target) (before, read)
        (reason, sent) =
      rw (found, read, sent) refl

  -- A test that expects a revert passes exactly if it can read its data, and sends its transaction
  -- in the state that it started from, which the chain refuses: the transaction of the test, for the
  -- address of the symbol's reserve, with the amount and the value of its texts converted with the
  -- decimals of that reserve, where '-1' is the largest amount in a withdrawal. The tests are those
  -- of a deposit, a withdrawal, a borrow, a use as collateral, a swap of the rate mode and a
  -- rebalance.
  pub revert-IsRefused :
      (test : PoolTest) (symbol user : String) (s t : chain.State)
      → (run_test test symbol user "revert" s ≡ (ok tt, t)) ↔ IsRefusedTest test symbol user s t
  unfolding IsRefusedTest
  revert-IsRefused test symbol user s t = (
    returned _ _ tt t (run_test-Establishes test symbol user s),
    (λ (reserve, call, found, read, asked, refused_call).
        IsRefusedTest-run test symbol user reserve call s t found asked read refused_call),
  )
