-- ===== src/Scenario/Calling.antt =====
-- test-suites/helpers/scenario-engine.ts: the actions that lack nothing call what they ask for.
use Prim.Native.String.{String}
use package.text.Mathlib.Text.{◌==◌ as str_eq}
use lend_core.Prelude.{
  ◌≡◌, refl, List, [], ◌∷◌, Option, none, some, Bool, true, false, ◌&&◌, if◌then◌else◌,
}
use lend_core.Prelude.Run.{Run, follow}
use lend_core.BigNumber.{BigNumberApi}
use lend_core.Types.{RateMode}
use lend_core.Actions.{Suite, given}
use lend_core.Actions.Supply.{mint, approve, deposit, withdraw, supply_with_permit}
use lend_core.Actions.Debt.{delegate_borrow_allowance, borrow, repay, repay_with_permit}
use lend_core.Actions.Modes.{
  set_use_as_collateral, swap_borrow_rate_mode, rebalance_stable_borrow_rate,
}
use lend_core.Scenario.{Arguments, Users, at, parsed, chosen}
use lend_core.Scenario.Needs.{
  Need, amount, beneficiary, recipient, collateral_choice, rebalanced_user, needs, is_some,
  has_account, has, has_all, fulfils,
}
use lend_core.Scenario.Dispatch.{
  dispatch, run_mint, run_approve, run_deposit, run_supply_with_permit, run_delegate, run_withdraw,
  run_borrow, run_repay, run_repay_with_permit, run_set_use_as_collateral, run_swap, run_rebalance,
}
use lend_core.Scenario.Called.{
  IsCalled, IsAccountOf, mint_called, approve_called, deposit_called, supply_with_permit_called,
  delegate_called, withdraw_called, borrow_called, repay_called, repay_with_permit_called,
  set_use_as_collateral_called, swap_called, rebalance_called,
}

pub both : (a b : Bool) → (a && b) ≡ true → (a ≡ true) × (b ≡ true)
both true b h = (refl, h)
both false b h = cc

pub is_some-some : {A : Type 0} (o : Option A) → is_some o ≡ true → (a : A) × (o ≡ some a)
is_some-some none h = cc
is_some-some (some a) h = (a, refl)

has_account-IsAccountOf :
    (users : Users) (index : Option String)
    → has_account users index ≡ true
    → (account : String) × IsAccountOf users index account
unfolding IsAccountOf
has_account-IsAccountOf users none h = cc
has_account-IsAccountOf users (some text) h =
    let (account, e) = is_some-some (at users.addresses (users.parse_int text)) h in
    (account, (text, refl, e))

chosen_exists :
    (users : Users) (index : Option String) (account : String)
    → is_some (chosen users index (some "")) ≡ true
    → (other : String) × (chosen users index (some account) ≡ some other)
unfolding chosen
chosen_exists users none account h = (account, refl)
chosen_exists users (some index) account h =
    is_some-some (at users.addresses (users.parse_int index)) h

module _ ⦃big : BigNumberApi⦄ (suite : Suite) (users : Users) (reserve expected account : String)
    (args : Arguments) (mode : RateMode) (key : String) (message : Option String)
    (name : String) where
  open suite use {chain}

  unfoldable pub Calls : Run chain.State (Unit {0}) → chain.State → Type 0
  Calls run s =
      (m : Run chain.State (Unit {0})) × IsCalled suite users reserve expected account args mode key
        message name m
      × (run s ≡ m s)

  met :
      (need : Need) (rest : List Need)
      → has_all users args (need ∷ rest) ≡ true
      → (has users args need ≡ true) × (has_all users args rest ≡ true)
  met need rest h = both (has users args need) (has_all users args rest) h

  choice-Calls :
      (b all rest : Bool) (x y : Run chain.State (Unit {0})) (s : chain.State)
      → (if b then all else rest) ≡ true
      → (b ≡ true → all ≡ true → Calls x s)
      → (rest ≡ true → Calls y s)
      → Calls (if b then x else y) s
  choice-Calls true all rest x y s h k l = k refl h
  choice-Calls false all rest x y s h k l = l h

  run_mint-Calls :
      (s : chain.State)
      → str_eq name "mint" ≡ true
      → has_all users args (amount ∷ []) ≡ true
      → Calls (run_mint suite users reserve expected (some account) args) s
  unfolding run_mint Calls follow
  run_mint-Calls s e h =
      let (n, n_e) = is_some-some (given args.amount) (met amount [] h).0 in
      (mint suite reserve n account, mint_called n e n_e, rw n_e refl)

  run_approve-Calls :
      (s : chain.State)
      → str_eq name "approve" ≡ true
      → has_all users args [] ≡ true
      → Calls (run_approve suite users reserve expected (some account) args) s
  unfolding run_approve Calls follow
  run_approve-Calls s e h = (approve suite reserve account, approve_called e, refl)

  run_deposit-Calls :
      (s : chain.State)
      → str_eq name "deposit" ≡ true
      → has_all users args (beneficiary ∷ amount ∷ []) ≡ true
      → Calls (run_deposit suite users reserve expected (some account) args) s
  unfolding run_deposit Calls follow
  run_deposit-Calls s e h =
      let (other, other_e) =
        chosen_exists users (given args.on_behalf_of) account (met beneficiary (amount ∷ []) h).0 in
      let (n, n_e) =
        is_some-some (given args.amount) (met amount [] (met beneficiary (amount ∷ []) h).1).0 in
      (
        deposit suite reserve n account other args.send_value expected,
        deposit_called other n e other_e n_e,
        rw (other_e, n_e) refl,
      )

  run_supply_with_permit-Calls :
      (s : chain.State)
      → str_eq name "supplyWithPermit" ≡ true
      → has_all users args (beneficiary ∷ amount ∷ []) ≡ true
      → Calls (run_supply_with_permit suite users reserve expected (some account) args key) s
  unfolding run_supply_with_permit Calls follow
  run_supply_with_permit-Calls s e h =
      let (other, other_e) =
        chosen_exists users (given args.on_behalf_of) account (met beneficiary (amount ∷ []) h).0 in
      let (n, n_e) =
        is_some-some (given args.amount) (met amount [] (met beneficiary (amount ∷ []) h).1).0 in
      (
        supply_with_permit suite reserve n account key other args.send_value expected,
        supply_with_permit_called other n e other_e n_e,
        rw (other_e, n_e) refl,
      )

  run_delegate-Calls :
      (s : chain.State)
      → str_eq name "delegateBorrowAllowance" ≡ true
      → has_all users args (recipient ∷ amount ∷ []) ≡ true
      → Calls (run_delegate suite users reserve expected (some account) args mode message) s
  unfolding run_delegate Calls follow
  run_delegate-Calls s e h =
      let (to, to_e) =
        is_some-some (at users.addresses (parsed users args.to_user))
          (met recipient (amount ∷ []) h).0 in
      let (n, n_e) =
        is_some-some (given args.amount) (met amount [] (met recipient (amount ∷ []) h).1).0 in
      (
        delegate_borrow_allowance suite reserve n mode account to expected message,
        delegate_called to n e to_e n_e,
        rw (to_e, n_e) refl,
      )

  run_withdraw-Calls :
      (s : chain.State)
      → str_eq name "withdraw" ≡ true
      → has_all users args (amount ∷ []) ≡ true
      → Calls (run_withdraw suite users reserve expected (some account) args) s
  unfolding run_withdraw Calls follow
  run_withdraw-Calls s e h =
      let (n, n_e) = is_some-some (given args.amount) (met amount [] h).0 in
      (withdraw suite reserve n account expected, withdraw_called n e n_e, rw n_e refl)

  run_borrow-Calls :
      (s : chain.State)
      → str_eq name "borrow" ≡ true
      → has_all users args (beneficiary ∷ amount ∷ []) ≡ true
      → Calls (run_borrow suite users reserve expected (some account) args mode) s
  unfolding run_borrow Calls follow
  run_borrow-Calls s e h =
      let (other, other_e) =
        chosen_exists users (given args.on_behalf_of) account (met beneficiary (amount ∷ []) h).0 in
      let (n, n_e) =
        is_some-some (given args.amount) (met amount [] (met beneficiary (amount ∷ []) h).1).0 in
      (
        borrow suite reserve n mode account other args.time_travel expected,
        borrow_called other n e other_e n_e,
        rw (other_e, n_e) refl,
      )

  run_repay-Calls :
      (s : chain.State)
      → str_eq name "repay" ≡ true
      → has_all users args (amount ∷ beneficiary ∷ []) ≡ true
      → Calls (run_repay suite users reserve expected (some account) args mode) s
  unfolding run_repay Calls follow
  run_repay-Calls s e h =
      let (n, n_e) = is_some-some (given args.amount) (met amount (beneficiary ∷ []) h).0 in
      let (other, other_e) =
        chosen_exists users (given args.on_behalf_of) account
          (met beneficiary [] (met amount (beneficiary ∷ []) h).1).0 in
      (
        repay suite reserve n mode account other args.send_value expected args.time_travel,
        repay_called n other e n_e other_e,
        rw (n_e, other_e) refl,
      )

  run_repay_with_permit-Calls :
      (s : chain.State)
      → str_eq name "repayWithPermit" ≡ true
      → has_all users args (amount ∷ beneficiary ∷ []) ≡ true
      → Calls (run_repay_with_permit suite users reserve expected (some account) args mode key) s
  unfolding run_repay_with_permit Calls follow
  run_repay_with_permit-Calls s e h =
      let (n, n_e) = is_some-some (given args.amount) (met amount (beneficiary ∷ []) h).0 in
      let (other, other_e) =
        chosen_exists users (given args.on_behalf_of) account
          (met beneficiary [] (met amount (beneficiary ∷ []) h).1).0 in
      (
        repay_with_permit suite reserve n mode account key other args.send_value expected,
        repay_with_permit_called n other e n_e other_e,
        rw (n_e, other_e) refl,
      )

  run_set_use_as_collateral-Calls :
      (s : chain.State)
      → str_eq name "setUseAsCollateral" ≡ true
      → has_all users args (collateral_choice ∷ []) ≡ true
      → Calls (run_set_use_as_collateral suite users reserve expected (some account) args) s
  unfolding run_set_use_as_collateral Calls follow
  run_set_use_as_collateral-Calls s e h =
      let (choice, choice_e) =
        is_some-some (given args.use_as_collateral) (met collateral_choice [] h).0 in
      (
        set_use_as_collateral suite reserve account choice expected,
        set_use_as_collateral_called choice e choice_e,
        rw choice_e refl,
      )

  run_swap-Calls :
      (s : chain.State)
      → str_eq name "swapBorrowRateMode" ≡ true
      → has_all users args [] ≡ true
      → Calls (run_swap suite users reserve expected (some account) args mode) s
  unfolding run_swap Calls follow
  run_swap-Calls s e h =
      (swap_borrow_rate_mode suite reserve account mode expected, swap_called e, refl)

  run_rebalance-Calls :
      (s : chain.State)
      → str_eq name "rebalanceStableBorrowRate" ≡ true
      → has_all users args (rebalanced_user ∷ []) ≡ true
      → Calls (run_rebalance suite users reserve expected (some account) args) s
  unfolding run_rebalance Calls follow IsAccountOf
  run_rebalance-Calls s e h =
      let (target, (text, text_e, target_e)) =
        has_account-IsAccountOf users (given args.target) (met rebalanced_user [] h).0 in
      (
        rebalance_stable_borrow_rate suite reserve account target expected,
        rebalance_called target e (text, text_e, target_e),
        rw (text_e, target_e) refl,
      )

  pub dispatch-Calls :
      (s : chain.State)
      → fulfils users args needs name ≡ true
      → Calls (dispatch suite users reserve expected (some account) args name mode key message) s
  unfolding dispatch
  dispatch-Calls s h = choice-Calls (str_eq name "mint") _ _ _ _ s h (run_mint-Calls s) (λ h.
      choice-Calls (str_eq name "approve") _ _ _ _ s h (run_approve-Calls s) (λ h.
        choice-Calls (str_eq name "deposit") _ _ _ _ s h (run_deposit-Calls s) (λ h.
          choice-Calls (str_eq name "supplyWithPermit") _ _ _ _ s h (run_supply_with_permit-Calls s)
            (λ h.
              choice-Calls (str_eq name "delegateBorrowAllowance") _ _ _ _ s h
                (run_delegate-Calls s)
                (λ h. choice-Calls (str_eq name "withdraw") _ _ _ _ s h (run_withdraw-Calls s) (λ h.
                  choice-Calls (str_eq name "borrow") _ _ _ _ s h (run_borrow-Calls s) (λ h.
                    choice-Calls (str_eq name "repay") _ _ _ _ s h (run_repay-Calls s) (λ h.
                      choice-Calls (str_eq name "repayWithPermit") _ _ _ _ s h
                        (run_repay_with_permit-Calls s)
                        (λ h.
                          choice-Calls (str_eq name "setUseAsCollateral") _ _ _ _ s h
                            (run_set_use_as_collateral-Calls s)
                            (λ h.
                              choice-Calls (str_eq name "swapBorrowRateMode") _ _ _ _ s h
                                (run_swap-Calls s)
                                (λ h.
                                  choice-Calls (str_eq name "rebalanceStableBorrowRate") _ _ _ _ s h
                                    (run_rebalance-Calls s) (λ h. cc))))))))))))
