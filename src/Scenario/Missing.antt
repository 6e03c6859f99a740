-- ===== src/Scenario/Missing.antt =====
-- test-suites/helpers/scenario-engine.ts: the actions that lack something throw.
use Prim.Native.String.{String}
use package.text.Mathlib.Text.{◌==◌ as str_eq}
use lend_core.Prelude.{◌≡◌, refl, sym, ◌∙◌, List, [], ◌∷◌, Option, some, Bool, false, ◌&&◌}
use lend_core.Prelude.Result.{Error, err}
use lend_core.BigNumber.{BigNumberApi}
use lend_core.Types.{RateMode}
use lend_core.Actions.{Suite, given}
use lend_core.Scenario.{Arguments, Action, Users, at, plus_one}
use lend_core.Scenario.Needs.{
  Need, amount, beneficiary, recipient, collateral_choice, rebalanced_user, needs, is_some, has_all,
  fulfils, is_complete,
}
use lend_core.Scenario.Throwing.{
  Throws, choice-Throws, defined-Throws, required-Throws, chosen-some, impossible,
}
use lend_core.Scenario.Dispatch.{
  dispatch, execute_action, run_mint, run_approve, run_deposit, run_supply_with_permit,
  run_delegate, run_withdraw, run_borrow, run_repay, run_repay_with_permit,
  run_set_use_as_collateral, run_swap, run_rebalance,
}

module _ ⦃big : BigNumberApi⦄ (suite : Suite) (users : Users) (reserve expected : String)
    (user : Option String) (args : Arguments) where
  open suite use {chain}

  -- The arguments have what is needed, and the user exists.
  abbrev is_ready : List Need → Bool
  is_ready list = has_all users args list && is_some user

  run_mint-Throws :
      (s : chain.State)
      → is_ready (amount ∷ []) ≡ false
      → Throws (run_mint suite users reserve expected user args) s
  unfolding run_mint
  run_mint-Throws s h = required-Throws _ _ _ s (λ n n_known.
      defined-Throws _ _ s (λ account account_known. impossible _ h (rw (n_known, account_known))))

  run_approve-Throws :
      (s : chain.State)
      → is_ready [] ≡ false
      → Throws (run_approve suite users reserve expected user args) s
  unfolding run_approve
  run_approve-Throws s h =
      defined-Throws _ _ s (λ account account_known. impossible _ h (rw account_known))

  run_deposit-Throws :
      (s : chain.State)
      → is_ready (beneficiary ∷ amount ∷ []) ≡ false
      → Throws (run_deposit suite users reserve expected user args) s
  unfolding run_deposit
  run_deposit-Throws s h = defined-Throws _ _ s (λ other other_known.
      required-Throws _ _ _ s (λ n n_known. defined-Throws _ _ s (λ account account_known.
        let exists = chosen-some users (given args.on_behalf_of) user other other_known in
        impossible _ h (rw (exists, n_known, account_known)))))

  run_supply_with_permit-Throws :
      (key : String) (s : chain.State)
      → is_ready (beneficiary ∷ amount ∷ []) ≡ false
      → Throws (run_supply_with_permit suite users reserve expected user args key) s
  unfolding run_supply_with_permit
  run_supply_with_permit-Throws key s h = defined-Throws _ _ s (λ other other_known.
      required-Throws _ _ _ s (λ n n_known. defined-Throws _ _ s (λ account account_known.
        let exists = chosen-some users (given args.on_behalf_of) user other other_known in
        impossible _ h (rw (exists, n_known, account_known)))))

  run_delegate-Throws :
      (mode : RateMode) (message : Option String) (s : chain.State)
      → is_ready (recipient ∷ amount ∷ []) ≡ false
      → Throws (run_delegate suite users reserve expected user args mode message) s
  unfolding run_delegate
  run_delegate-Throws mode message s h = defined-Throws _ _ s (λ to to_known.
      required-Throws _ _ _ s (λ n n_known.
        defined-Throws _ _ s
          (λ account account_known. impossible _ h (rw (to_known, n_known, account_known)))))

  run_withdraw-Throws :
      (s : chain.State)
      → is_ready (amount ∷ []) ≡ false
      → Throws (run_withdraw suite users reserve expected user args) s
  unfolding run_withdraw
  run_withdraw-Throws s h = required-Throws _ _ _ s (λ n n_known.
      defined-Throws _ _ s (λ account account_known. impossible _ h (rw (n_known, account_known))))

  run_borrow-Throws :
      (mode : RateMode) (s : chain.State)
      → is_ready (beneficiary ∷ amount ∷ []) ≡ false
      → Throws (run_borrow suite users reserve expected user args mode) s
  unfolding run_borrow
  run_borrow-Throws mode s h = defined-Throws _ _ s (λ other other_known.
      required-Throws _ _ _ s (λ n n_known. defined-Throws _ _ s (λ account account_known.
        let exists = chosen-some users (given args.on_behalf_of) user other other_known in
        impossible _ h (rw (exists, n_known, account_known)))))

  run_repay-Throws :
      (mode : RateMode) (s : chain.State)
      → is_ready (amount ∷ beneficiary ∷ []) ≡ false
      → Throws (run_repay suite users reserve expected user args mode) s
  unfolding run_repay
  run_repay-Throws mode s h = required-Throws _ _ _ s (λ n n_known.
      defined-Throws _ _ s (λ account account_known. defined-Throws _ _ s (λ other other_known.
        let exists = chosen-some users (given args.on_behalf_of) user other other_known in
        impossible _ h (rw (n_known, account_known, exists)))))

  run_repay_with_permit-Throws :
      (mode : RateMode) (key : String) (s : chain.State)
      → is_ready (amount ∷ beneficiary ∷ []) ≡ false
      → Throws (run_repay_with_permit suite users reserve expected user args mode key) s
  unfolding run_repay_with_permit
  run_repay_with_permit-Throws mode key s h = required-Throws _ _ _ s (λ n n_known.
      defined-Throws _ _ s (λ account account_known. defined-Throws _ _ s (λ other other_known.
        let exists = chosen-some users (given args.on_behalf_of) user other other_known in
        impossible _ h (rw (n_known, account_known, exists)))))

  run_set_use_as_collateral-Throws :
      (s : chain.State)
      → is_ready (collateral_choice ∷ []) ≡ false
      → Throws (run_set_use_as_collateral suite users reserve expected user args) s
  unfolding run_set_use_as_collateral
  run_set_use_as_collateral-Throws s h = required-Throws _ _ _ s (λ choice choice_known.
      defined-Throws _ _ s
        (λ account account_known. impossible _ h (rw (choice_known, account_known))))

  run_swap-Throws :
      (mode : RateMode) (s : chain.State)
      → is_ready [] ≡ false
      → Throws (run_swap suite users reserve expected user args mode) s
  unfolding run_swap
  run_swap-Throws mode s h =
      defined-Throws _ _ s (λ account account_known. impossible _ h (rw account_known))

  run_rebalance-Throws :
      (s : chain.State)
      → is_ready (rebalanced_user ∷ []) ≡ false
      → Throws (run_rebalance suite users reserve expected user args) s
  unfolding run_rebalance
  run_rebalance-Throws s h = required-Throws _ _ _ s (λ index index_known.
      defined-Throws _ _ s (λ target target_known.
        defined-Throws _ _ s (λ account account_known.
          impossible _ h (rw (index_known, target_known, account_known)))))

  dispatch-Throws :
      (name : String) (mode : RateMode) (key : String) (message : Option String) (s : chain.State)
      → (fulfils users args needs name && is_some user) ≡ false
      → Throws (dispatch suite users reserve expected user args name mode key message) s
  unfolding dispatch Throws
  dispatch-Throws name mode key message s h =
      choice-Throws (str_eq name "mint") _ _ (is_some user) _ _ s h (run_mint-Throws s) (λ h.
        choice-Throws (str_eq name "approve") _ _ (is_some user) _ _ s h (run_approve-Throws s)
          (λ h.
            choice-Throws (str_eq name "deposit") _ _ (is_some user) _ _ s h (run_deposit-Throws s)
              (λ h.
                choice-Throws (str_eq name "supplyWithPermit") _ _ (is_some user) _ _ s h
                  (run_supply_with_permit-Throws key s)
                  (λ h.
                    choice-Throws (str_eq name "delegateBorrowAllowance") _ _ (is_some user) _ _ s h
                      (run_delegate-Throws mode message s)
                      (λ h.
                        choice-Throws (str_eq name "withdraw") _ _ (is_some user) _ _ s h
                          (run_withdraw-Throws s)
                          (λ h.
                            choice-Throws (str_eq name "borrow") _ _ (is_some user) _ _ s h
                              (run_borrow-Throws mode s)
                              (λ h.
                                choice-Throws (str_eq name "repay") _ _ (is_some user) _ _ s h
                                  (run_repay-Throws mode s)
                                  (λ h.
                                    choice-Throws (str_eq name "repayWithPermit") _ _ (is_some user)
                                      _ _ s h (run_repay_with_permit-Throws mode key s)
                                      (λ h.
                                        choice-Throws (str_eq name "setUseAsCollateral") _ _
                                          (is_some user) _ _ s h
                                          (run_set_use_as_collateral-Throws s)
                                          (λ h.
                                            choice-Throws (str_eq name "swapBorrowRateMode") _ _
                                              (is_some user) _ _ s h (run_swap-Throws mode s)
                                              (λ h.
                                                choice-Throws
                                                  (str_eq name "rebalanceStableBorrowRate") _ _
                                                  (is_some user) _ _ s h (run_rebalance-Throws s)
                                                  (λ h. (_, refl)))))))))))))

complete-ready :
    (users : Users) (action : Action) (args : Arguments) (name reserve index expected key : String)
    → action.args ≡ some args
    → given action.name ≡ some name
    → given args.reserve ≡ some reserve
    → given args.user ≡ some index
    → given action.expected ≡ some expected
    → at users.secret_keys (plus_one (users.parse_int index)) ≡ some key
    → is_complete users action
      ≡ (fulfils users args needs name && is_some (at users.addresses (users.parse_int index)))
unfolding is_complete
complete-ready users action args name reserve index expected key a n r u x k = rw (a, n, r, u, x, k)

module _ ⦃big : BigNumberApi⦄ (suite : Suite) (users : Users) where
  open suite use {chain}

  -- An action that is not complete throws and leaves the chain as it is. A complete action has
  -- arguments, a known name, a reserve, an expected result, and a user with an address and a wallet.
  -- It has an amount to mint, deposit, delegate, withdraw, borrow or repay, with or without a permit,
  -- a choice to set the use as collateral, and a target to rebalance. The account on whose behalf it
  -- deposits, borrows or repays, if one is named, the one it delegates to, and the target exist.
  pub incomplete_throws :
      (action : Action) (s : chain.State)
      → is_complete users action ≡ false
      → (e : Error) × (execute_action suite users action s ≡ (err e, s))
  unfolding execute_action Throws
  incomplete_throws action s h = defined-Throws _ _ s (λ args a. required-Throws _ _ _ s (λ name n.
      required-Throws _ _ _ s (λ reserve r. required-Throws _ _ _ s (λ index u.
        required-Throws _ _ _ s (λ expected x. defined-Throws _ _ s (λ key k.
          dispatch-Throws suite users reserve expected (at users.addresses (users.parse_int index))
            args name _ key action.revert_message s
            (sym (complete-ready users action args name reserve index expected key a n r u x k)
              ∙ h)))))))
