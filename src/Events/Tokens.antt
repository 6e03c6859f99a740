-- ===== src/Events/Tokens.antt =====
-- test-suites/helpers/utils/tokenization-events.ts: the events of the tokens that are expected after
-- an action, from what the contracts answer before and after its transaction. All are looked for
-- by `matchEvent`.
use Prim.Native.String.{String}
use lend_core.Prelude.{List, [], ◌∷◌, if◌then◌else◌}
use lend_core.Prelude.Int.{ℤ}
use lend_core.Prelude.Result.{Result, ok, ◌>>=◌}
use lend_core.BigNumber.{BigNumberApi}
use lend_core.WadRay.{ray_mul, ray_div}
use lend_core.Interest.{calc_expected_stable_debt_token_balance}
use lend_core.Events.{Argument, big_number, word, scalar}

-- The token whose interface decodes the event
pub data Token : Type 0 where
  underlying_token : Token
  h_token : Token
  debt_token : Token

-- The arguments of a call of `matchEvent`, but for the receipt
pub record Expected : Type 0 where
  pub token : Token
  pub name : String
  pub emitter : String
  pub args : List Argument

-- `ZERO_ADDRESS`
abbrev pub zero_address : String
zero_address = "0x0000000000000000000000000000000000000000"

abbrev pub address_arg : String → Argument
address_arg address = scalar (word address)

abbrev pub number_arg : ℤ → Argument
number_arg n = scalar (big_number n)

abbrev pub transfer_of : Token → String → String → String → ℤ → Expected
transfer_of token emitter from to value = record {
  token = token;
  name = "Transfer";
  emitter = emitter;
  args = address_arg from ∷ address_arg to ∷ number_arg value ∷ [];
}

-- `Mint` and `Burn` of the hToken and of the variable debt token
abbrev pub scaled_event : String → Token → String → String → String → ℤ → ℤ → ℤ → Expected
scaled_event name token emitter first second value increase index = record {
  token = token;
  name = name;
  emitter = emitter;
  args =
      address_arg first
      ∷ address_arg second
      ∷ number_arg value
      ∷ number_arg increase
      ∷ number_arg index
      ∷ [];
}

-- What is read of the stable debt token: before the transaction the principal, the rate of the user
-- and the time of its update, then the time of the block, and after it the rates and the supply.
pub record StableAnswers : Type 0 where
  pub principal_balance : ℤ
  pub previous_rate : ℤ
  pub last_timestamp : ℤ
  pub tx_timestamp : ℤ
  pub average_rate : ℤ
  pub rate_after : ℤ
  pub total_supply : ℤ

module _ ⦃big : BigNumberApi⦄ where
  open big use {add, sub, gt}

  unfoldable pub get_balance_increase : ℤ → ℤ → ℤ → Result ℤ
  get_balance_increase scaled_balance index_before_action index_after_action = do
    after ← ray_mul scaled_balance index_after_action
    before ← ray_mul scaled_balance index_before_action
    ok (sub after before)

  module _ (user underlying h_address : String) (amount previous_index index_after : ℤ) where
    unfoldable pub supply : String → ℤ → Result (List Expected)
    unfolding get_balance_increase
    supply on_behalf_of scaled_after = do
      added_scaled_balance ← ray_div amount index_after
      let scaled_balance = sub scaled_after added_scaled_balance
      increase ← get_balance_increase scaled_balance previous_index index_after
      ok (
          transfer_of underlying_token underlying user h_address amount
          ∷ transfer_of h_token h_address zero_address on_behalf_of (add amount increase)
          ∷ scaled_event "Mint" h_token h_address user on_behalf_of (add amount increase) increase
              index_after
          ∷ [])

    unfoldable pub withdraw : String → ℤ → Result (List Expected)
    unfolding get_balance_increase
    withdraw to scaled_after = do
      added_scaled_balance ← ray_div amount index_after
      let scaled_balance = add scaled_after added_scaled_balance
      increase ← get_balance_increase scaled_balance previous_index index_after
      ok (
          transfer_of underlying_token underlying h_address to amount
          ∷ (if gt increase amount
              then transfer_of h_token h_address zero_address user (sub increase amount)
                ∷ scaled_event "Mint" h_token h_address user user (sub increase amount) increase
                    index_after
                ∷ []
              else transfer_of h_token h_address user zero_address (sub amount increase)
                ∷ scaled_event "Burn" h_token h_address user to (sub amount increase) increase
                    index_after
                ∷ []))

    -- `debt` is the address of the variable debt token.
    unfoldable pub variable_borrow : String → String → ℤ → Result (List Expected)
    unfolding get_balance_increase
    variable_borrow debt on_behalf_of scaled_after = do
      added_scaled_balance ← ray_div amount index_after
      let scaled_balance = sub scaled_after added_scaled_balance
      increase ← get_balance_increase scaled_balance previous_index index_after
      ok (
          transfer_of underlying_token underlying h_address user amount
          ∷ transfer_of debt_token debt zero_address on_behalf_of (add amount increase)
          ∷ scaled_event "Mint" debt_token debt user on_behalf_of (add amount increase) increase
              index_after
          ∷ [])

    unfoldable pub repay_variable_borrow : String → String → ℤ → Result (List Expected)
    unfolding get_balance_increase
    repay_variable_borrow debt on_behalf_of scaled_after = do
      added_scaled_balance ← ray_div amount index_after
      let scaled_balance = add scaled_after added_scaled_balance
      increase ← get_balance_increase scaled_balance previous_index index_after
      ok (
          transfer_of underlying_token underlying user h_address amount
          ∷ (if gt increase amount
              then transfer_of debt_token debt zero_address on_behalf_of (sub increase amount)
                ∷ scaled_event "Mint" debt_token debt on_behalf_of on_behalf_of
                    (sub increase amount) increase index_after
                ∷ []
              else transfer_of debt_token debt on_behalf_of zero_address (sub amount increase)
                ∷ scaled_event "Burn" debt_token debt on_behalf_of zero_address
                    (sub amount increase) increase index_after
                ∷ []))

  -- The debt of a user with its interest, which the code calls the new principal balance
  unfoldable pub stable_balance : StableAnswers → Result ℤ
  stable_balance a =
      calc_expected_stable_debt_token_balance a.principal_balance a.previous_rate a.last_timestamp
        a.tx_timestamp

  abbrev pub stable_mint : String → String → String → StableAnswers → ℤ → ℤ → ℤ → Expected
  stable_mint debt caller on_behalf_of a value balance increase = record {
    token = debt_token;
    name = "Mint";
    emitter = debt;
    args =
        address_arg caller
        ∷ address_arg on_behalf_of
        ∷ number_arg value
        ∷ number_arg balance
        ∷ number_arg increase
        ∷ number_arg a.rate_after
        ∷ number_arg a.average_rate
        ∷ number_arg a.total_supply
        ∷ [];
  }

  module _ (user underlying h_address debt on_behalf_of : String) (amount : ℤ)
      (a : StableAnswers) where
    unfoldable pub stable_borrow : Result (List Expected)
    unfolding stable_balance
    stable_borrow = do
      new_principal_balance ← stable_balance a
      let increase = sub new_principal_balance a.principal_balance
      ok (
          transfer_of underlying_token underlying h_address user amount
          ∷ transfer_of debt_token debt zero_address on_behalf_of (add amount increase)
          ∷ stable_mint debt user on_behalf_of a (add amount increase) new_principal_balance
              increase
          ∷ [])

    unfoldable pub repay_stable_borrow : Result (List Expected)
    unfolding stable_balance
    repay_stable_borrow = do
      new_principal_balance ← stable_balance a
      let increase = sub new_principal_balance a.principal_balance
      ok (
          transfer_of underlying_token underlying user h_address amount
          ∷ (if gt increase amount
              then transfer_of debt_token debt zero_address on_behalf_of (sub increase amount)
                ∷ stable_mint debt on_behalf_of on_behalf_of a (sub increase amount)
                    new_principal_balance increase
                ∷ []
              else transfer_of debt_token debt on_behalf_of zero_address (sub amount increase)
                ∷ (record {
                  token = debt_token;
                  name = "Burn";
                  emitter = debt;
                  args =
                      address_arg on_behalf_of
                      ∷ number_arg (sub amount increase)
                      ∷ number_arg new_principal_balance
                      ∷ number_arg increase
                      ∷ number_arg a.average_rate
                      ∷ number_arg a.total_supply
                      ∷ [];
                })
                ∷ []))
