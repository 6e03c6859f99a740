-- ===== src/Events/Transfers.antt =====
-- test-suites/helpers/utils/tokenization-events.ts: the expected events of a transfer of hTokens,
-- the check of expected events, and the decoded events of a token.
use Prim.Native.String.{String}
use package.text.Mathlib.Text.{◌==◌ as str_eq}
use lend_core.Prelude.{
  List, [], ◌∷◌, ◌++◌, Option, none, some, Bool, false, not, ◌&&◌, if◌then◌else◌,
}
use lend_core.Prelude.Int.{ℤ, pos}
use lend_core.Prelude.Result.{Result, ok, ◌>>=◌, ◌>>◌}
use lend_core.BigNumber.{BigNumberApi}
use lend_core.WadRay.{ray_div}
use lend_core.Events.{EventContract, Builtins, Log, match_event}
use lend_core.Events.Tokens.{
  Token, h_token, Expected, zero_address, address_arg, number_arg, transfer_of, scaled_event,
  get_balance_increase,
}

-- What is read of the hToken: the indexes of both accounts before the transaction, the scaled
-- balances after it, and the normalized income.
pub record TransferAnswers : Type 0 where
  pub from_previous_index : ℤ
  pub to_previous_index : ℤ
  pub index_after : ℤ
  pub from_scaled_after : ℤ
  pub to_scaled_after : ℤ

abbrev pub balance_transfer : String → String → String → ℤ → ℤ → Expected
balance_transfer h_address from to scaled index = record {
  token = h_token;
  name = "BalanceTransfer";
  emitter = h_address;
  args = address_arg from ∷ address_arg to ∷ number_arg scaled ∷ number_arg index ∷ [];
}

-- The two events of a balance that has grown
abbrev pub increase_events : String → String → String → ℤ → ℤ → List Expected
increase_events h_address caller owner increase index =
    transfer_of h_token h_address zero_address owner increase
    ∷ scaled_event "Mint" h_token h_address caller owner increase increase index
    ∷ []

module _ ⦃big : BigNumberApi⦄ where
  open big use {add, sub, gt}

  unfoldable pub transfer : String → String → String → ℤ → TransferAnswers → Result (List Expected)
  unfolding get_balance_increase
  transfer user h_address to amount a = do
    added_scaled_balance ← ray_div amount a.index_after
    let delta_scaled_balance = if str_eq user to then pos 0 else added_scaled_balance
    let from_scaled_balance = add a.from_scaled_after delta_scaled_balance
    let to_scaled_balance = sub a.to_scaled_after delta_scaled_balance
    from_increase ← get_balance_increase from_scaled_balance a.from_previous_index a.index_after
    to_increase ← get_balance_increase to_scaled_balance a.to_previous_index a.index_after
    ok (
        transfer_of h_token h_address user to amount
        ∷ balance_transfer h_address user to added_scaled_balance a.index_after
        ∷ ((if gt from_increase (pos 0)
              then increase_events h_address user user from_increase a.index_after
              else [])
            ++ (if not (str_eq user to) && gt to_increase (pos 0)
                then increase_events h_address user to to_increase a.index_after
                else [])))

  -- The caller `user` moves the hTokens of `origin`.
  unfoldable pub transfer_from :
      String → String → String → String → ℤ → TransferAnswers → Result (List Expected)
  unfolding get_balance_increase
  transfer_from user origin h_address to amount a = do
    added_scaled_balance ← ray_div amount a.index_after
    let delta_scaled_balance = if str_eq origin to then pos 0 else added_scaled_balance
    let from_scaled_balance = add a.from_scaled_after delta_scaled_balance
    let to_scaled_balance = sub a.to_scaled_after delta_scaled_balance
    from_increase ← get_balance_increase from_scaled_balance a.from_previous_index a.index_after
    to_increase ← get_balance_increase to_scaled_balance a.to_previous_index a.index_after
    ok (
        transfer_of h_token h_address origin to amount
        ∷ balance_transfer h_address origin to added_scaled_balance a.index_after
        ∷ ((if gt from_increase (pos 0)
              then increase_events h_address user origin from_increase a.index_after
              else [])
            ++ (if not (str_eq origin to) && gt to_increase (pos 0)
                then increase_events h_address user to to_increase a.index_after
                else [])))

  -- The calls of `matchEvent`, in their order
  unfoldable pub match_all :
      Builtins → (Token → EventContract) → Option (List Log) → List Expected → Result (Unit {0})
  unfolding match_event
  match_all js contracts logs [] = ok tt
  match_all js contracts logs (e ∷ rest) = do
    match_event js e.name (contracts e.token) (some e.emitter) (some e.args) logs
    match_all js contracts logs rest

-- An entry of the tables of events: the signature and the names of the arguments
pub record TokenEvent : Type 0 where
  pub sig : String
  pub arg_names : List String

abbrev pub transfer_event : TokenEvent
transfer_event = record {
  sig = "Transfer(address,address,uint256)";
  arg_names = "from" ∷ "to" ∷ "value" ∷ [];
}

abbrev pub mint_event : TokenEvent
mint_event = record {
  sig = "Mint(address,address,uint256,uint256,uint256)";
  arg_names = "caller" ∷ "onBehalfOf" ∷ "value" ∷ "balanceIncrease" ∷ "index" ∷ [];
}

abbrev pub burn_event : TokenEvent
burn_event = record {
  sig = "Burn(address,address,uint256,uint256,uint256)";
  arg_names = "from" ∷ "target" ∷ "value" ∷ "balanceIncrease" ∷ "index" ∷ [];
}

abbrev pub htoken_events : List TokenEvent
htoken_events =
    transfer_event
    ∷ mint_event
    ∷ burn_event
    ∷ (record {
      sig = "BalanceTransfer(address,address,uint256,uint256)";
      arg_names = "from" ∷ "to" ∷ "value" ∷ "index" ∷ [];
    })
    ∷ []

abbrev pub variable_debt_token_events : List TokenEvent
variable_debt_token_events = transfer_event ∷ mint_event ∷ burn_event ∷ []

abbrev pub stable_debt_token_events : List TokenEvent
stable_debt_token_events =
    transfer_event
    ∷ (record {
      sig = "Mint(address,address,uint256,uint256,uint256,uint256,uint256,uint256)";
      arg_names =
          "user" ∷ "onBehalfOf" ∷ "amount" ∷ "currentBalance" ∷ "balanceIncrease" ∷ "newRate"
          ∷ "avgStableRate" ∷ "newTotalSupply" ∷ [];
    })
    ∷ (record {
      sig = "Burn(address,uint256,uint256,uint256,uint256,uint256)";
      arg_names =
          "from" ∷ "amount" ∷ "currentBalance" ∷ "balanceIncrease" ∷ "avgStableRate"
          ∷ "newTotalSupply" ∷ [];
    })
    ∷ []

-- `name_of` is `sig.split('(')[0]`, and `decode` is `decodeEventLog` of the token's interface.
module _ {Decoded : Type 0} (keccak256 : String → String) (name_of : String → String)
    (decode : String → Log → Result Decoded) where
  unfoldable pub find_event : String → List TokenEvent → Option TokenEvent
  find_event event_name [] = none
  find_event event_name (item ∷ items) =
      let rest = find_event event_name items in
      if str_eq (name_of item.sig) event_name then some item else rest

  unfoldable pub has_topic : String → List String → Bool
  has_topic hash [] = false
  has_topic hash (topic ∷ topics) = str_eq topic hash

  unfoldable pub with_decoded : String → Log → Result (List Decoded) → Result (List Decoded)
  with_decoded event_name log rest = do
    value ← decode event_name log
    others ← rest
    ok (value ∷ others)

  -- The logs of the event that the token has emitted, decoded
  unfoldable pub decoded_logs : String → String → String → List Log → Result (List Decoded)
  unfolding has_topic with_decoded
  decoded_logs event_name hash token [] = ok []
  decoded_logs event_name hash token (log ∷ logs) =
      let rest = decoded_logs event_name hash token logs in
      if has_topic hash log.topics && str_eq log.address token
      then with_decoded event_name log rest
      else rest

  unfoldable pub events_of : Option TokenEvent → String → String → List Log → Result (List Decoded)
  unfolding decoded_logs
  events_of none event_name token logs = ok []
  events_of (some item) event_name token logs =
      decoded_logs event_name (keccak256 item.sig) token logs

  unfoldable pub get_htoken_event : String → List Log → String → Result (List Decoded)
  unfolding events_of find_event
  get_htoken_event token logs event_name =
      events_of (find_event event_name htoken_events) event_name token logs

  unfoldable pub get_variable_debt_token_event : String → List Log → String → Result (List Decoded)
  unfolding events_of find_event
  get_variable_debt_token_event token logs event_name =
      events_of (find_event event_name variable_debt_token_events) event_name token logs

  unfoldable pub get_stable_debt_token_event : String → List Log → String → Result (List Decoded)
  unfolding events_of find_event
  get_stable_debt_token_event token logs event_name =
      events_of (find_event event_name stable_debt_token_events) event_name token logs
