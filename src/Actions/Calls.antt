-- ===== src/Actions/Calls.antt =====
-- The transaction that a test sends, and what it reads before.
use Prim.Native.String.{String}
use package.text.Mathlib.Text.{◌==◌ as str_eq}
use lend_core.Prelude.{◌≡◌, refl, Bool, if◌then◌else◌, subst, Option, none, some, true, false}
use lend_core.Prelude.Int.{ℤ, pos}
use lend_core.Prelude.Result.{Result, ok, err}
use lend_core.Prelude.Run.{follow, return, view}
use lend_core.BigNumber.{BigNumberApi}
use lend_core.Constants.{max_uint_amount}
use lend_core.Types.{RateMode}
use lend_core.Chain.Reading.{ContractsData, get_contracts_data, convert_to_currency_decimals}
use lend_core.Prelude.{ℕ}
use lend_core.Chain.{TokenAddresses, Call}
use lend_core.Actions.{Suite, value_to_send, amount_or_all, given, converted}
use lend_core.Actions.Debt.{debt_token}

-- The tests of one account, less the account and the reserve
pub data PoolTest : Type 0 where
  deposit_test : String → String → Option String → PoolTest
  withdraw_test : String → PoolTest
  borrow_test : String → RateMode → String → Option String → PoolTest
  collateral_test : String → PoolTest
  swap_test : RateMode → PoolTest
  rebalance_test : String → PoolTest

module _ ⦃big : BigNumberApi⦄ (suite : Suite) where
  open suite use {chain, ethers}

  -- The value that is sent with a deposit: none without a text, or the amount of the text
  pub data IsValue (reserve : String) (s : chain.State) : Option String → Option ℤ → Type 0 where
    no_value : IsValue reserve s none none
    empty_value : (text : String) → str_eq text "" ≡ true → IsValue reserve s (some text) none
    some_value :
        (text : String) (n : ℤ)
        → str_eq text "" ≡ false
        → convert_to_currency_decimals chain ethers reserve text s ≡ ok n
        → IsValue reserve s (some text) (some n)

  -- The transaction of a test, for the reserve's address: an amount is converted with the decimals of
  -- the reserve, and '-1' stands for all in a withdrawal.
  pub data IsCall (user reserve : String) (s : chain.State) : PoolTest → Call → Type 0 where
    deposit_call :
        (amount other : String) (text : Option String) (n : ℤ) (value : Option ℤ)
        → convert_to_currency_decimals chain ethers reserve amount s ≡ ok n
        → IsValue reserve s text value
        → IsCall user reserve s
            (deposit_test amount other text)
            (Call.deposit user reserve n other value)
    withdraw_all :
        (amount : String)
        → str_eq amount "-1" ≡ true
        → IsCall user reserve s
            (withdraw_test amount)
            (Call.withdraw user reserve (pos max_uint_amount) user)
    withdraw_part :
        (amount : String) (n : ℤ)
        → str_eq amount "-1" ≡ false
        → convert_to_currency_decimals chain ethers reserve amount s ≡ ok n
        → IsCall user reserve s (withdraw_test amount) (Call.withdraw user reserve n user)
    borrow_call :
        (amount : String) (mode : RateMode) (other : String) (travel : Option String) (n : ℤ)
        → convert_to_currency_decimals chain ethers reserve amount s ≡ ok n
        → IsCall user reserve s
            (borrow_test amount mode other travel)
            (Call.borrow user reserve n mode other)
    collateral_call :
        (option : String)
        → IsCall user reserve s (collateral_test option) (
            Call.set_user_use_reserve_as_collateral user reserve
              (str_eq (ethers.lower_case option) "true"))
    swap_call :
        (mode : RateMode)
        → IsCall user reserve s (swap_test mode) (Call.swap_borrow_rate_mode user reserve mode)
    rebalance_call :
        (target : String)
        → IsCall user reserve s
            (rebalance_test target)
            (Call.rebalance_stable_borrow_rate user reserve target)

  -- What the test reads before its transaction
  unfoldable pub IsRead : String → String → chain.State → PoolTest → Type 0
  IsRead user reserve s (deposit_test amount other text) =
      (before : ContractsData) × (get_contracts_data chain reserve other (some user) s ≡ ok before)
  IsRead user reserve s (withdraw_test amount) =
      (before : ContractsData) × (get_contracts_data chain reserve user none s ≡ ok before)
  IsRead user reserve s (borrow_test amount mode other travel) =
      (before : ContractsData) × (tokens : TokenAddresses) × (allowance : ℕ) × (get_contracts_data
          chain reserve other (some user) s
        ≡ ok before)
      × (chain.token_addresses reserve s ≡ ok tokens)
      × (chain.borrow_allowance (debt_token mode tokens) other user s ≡ ok allowance)
  IsRead user reserve s (collateral_test option) =
      (before : ContractsData) × (get_contracts_data chain reserve user none s ≡ ok before)
  IsRead user reserve s (swap_test mode) =
      (before : ContractsData) × (get_contracts_data chain reserve user none s ≡ ok before)
  IsRead user reserve s (rebalance_test target) =
      (before : ContractsData) × (get_contracts_data chain reserve target none s ≡ ok before)

  converted-IsValue :
      (reserve text : String) (value : Option ℤ) (s : chain.State) (result : Result ℤ)
      → convert_to_currency_decimals chain ethers reserve text s ≡ result
      → str_eq text "" ≡ false
      → follow (λ amount. return (some amount)) (result, s) ≡ (ok value, s)
      → IsValue reserve s (some text) value
  unfolding follow
  converted-IsValue reserve text value s (ok n) e long h =
      let same : some n ≡ value = cc in
      subst (λ v. IsValue reserve s (some text) v) same (some_value text n long e)
  converted-IsValue reserve text value s (err x) e long h = cc

  given-IsValue :
      (reserve text : String) (value : Option ℤ) (s : chain.State) (empty : Bool)
      → str_eq text "" ≡ empty
      → converted suite reserve (if empty then none else some text) s ≡ (ok value, s)
      → IsValue reserve s (some text) value
  unfolding converted
  given-IsValue reserve text value s true e h =
      let same : none ≡ value = cc in
      subst (λ v. IsValue reserve s (some text) v) same (empty_value text e)
  given-IsValue reserve text value s false e h =
      converted-IsValue reserve text value s
        (convert_to_currency_decimals chain ethers reserve text s) refl e h

  pub value_to_send-IsValue :
      (reserve : String) (text : Option String) (value : Option ℤ) (s : chain.State)
      → value_to_send suite reserve text s ≡ (ok value, s)
      → IsValue reserve s text value
  unfolding value_to_send given converted
  value_to_send-IsValue reserve none value s h =
      let same : none ≡ value = cc in subst (λ v. IsValue reserve s none v) same no_value
  value_to_send-IsValue reserve (some text) value s h =
      given-IsValue reserve text value s (str_eq text "") refl h

  counted-IsCall :
      (user reserve amount : String) (n : ℤ) (s : chain.State) (all : Bool)
      → str_eq amount "-1" ≡ all
      → (if all
            then return (pos max_uint_amount)
            else view (convert_to_currency_decimals chain ethers reserve amount))
          s
        ≡ (ok n, s)
      → IsCall user reserve s (withdraw_test amount) (Call.withdraw user reserve n user)
  counted-IsCall user reserve amount n s true e h =
      let same : pos max_uint_amount ≡ n = cc in
      subst (λ m. IsCall user reserve s (withdraw_test amount) (Call.withdraw user reserve m user))
        same (withdraw_all amount e)
  counted-IsCall user reserve amount n s false e h = withdraw_part amount n e cc

  pub amount_or_all-IsCall :
      (user reserve amount : String) (n : ℤ) (s : chain.State)
      → amount_or_all suite reserve amount s ≡ (ok n, s)
      → IsCall user reserve s (withdraw_test amount) (Call.withdraw user reserve n user)
  unfolding amount_or_all
  amount_or_all-IsCall user reserve amount n s h =
      counted-IsCall user reserve amount n s (str_eq amount "-1") refl h

  pub IsValue-value_to_send :
      (reserve : String) (text : Option String) (value : Option ℤ) (s : chain.State)
      → IsValue reserve s text value
      → value_to_send suite reserve text s ≡ (ok value, s)
  unfolding value_to_send given converted follow
  IsValue-value_to_send reserve text value s no_value = refl
  IsValue-value_to_send reserve text value s (empty_value word e) = rw e refl
  IsValue-value_to_send reserve text value s (some_value word n e c) = rw (e, c) refl
