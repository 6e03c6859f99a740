-- ===== src/Tests/Withdrawal.antt =====
-- A withdrawal of the token tests, with its three events in the receipt.
use Prim.Native.String.{String}
use package.text.Mathlib.Text.{◌==◌ as str_eq}
use lend_core.Prelude.{◌≡◌, ◌↔◌, refl, ◌^◌, List, [], ◌∷◌, some, Bool, true, false, if◌then◌else◌}
use lend_core.Prelude.Int.{pos}
use lend_core.Prelude.Result.{ok}
use lend_core.Prelude.Run.{follow}
use lend_core.BigNumber.{integers, integers-Documented}
use lend_core.WadRay.{ray_mul, ray_div}
use lend_core.Chain.{Chain, Call, Outcome, mined, refused, Receipt}
use lend_core.Chain.Reading.{convert_to_currency_decimals}
use lend_core.Actions.{Suite, submit, await_mined}
use lend_core.Events.{Argument, Log}
use lend_core.Events.Tokens as Expect
use lend_core.Events.Tokens.{zero_address, address_arg, number_arg, get_balance_increase}
use lend_core.Events.Transfers.{match_all}
use lend_core.Events.Runs.{Observer, mined_call, check_events, withdraw}
use lend_core.Events.Withdrawn.{IsWithdrawn, withdraw_returns_exactly}
use lend_core.Tests.World as World
use lend_core.Tests.Events.{number_of, same_words}

abbrev arguments_of : String → List Argument
arguments_of payload =
    if str_eq payload "out"
    then address_arg "0xa0" ∷ address_arg "0x2" ∷ number_arg (pos 100) ∷ []
    else if str_eq payload "burnt"
    then address_arg "0x1" ∷ address_arg zero_address ∷ number_arg (pos 100) ∷ []
    else address_arg "0x1"
      ∷ address_arg "0x2"
      ∷ number_arg (pos 100)
      ∷ number_arg (pos 0)
      ∷ number_arg (pos (10 ^ 27))
      ∷ []

abbrev observer : Observer
observer = record {
  builtins = record {
    keccak256 = λ text. text;
    starts_with =
        λ text prefix. str_eq text (if str_eq prefix "Burn" then "Burn(" else "Transfer(");
    text_length = λ text. 4;
    char_at = λ text index. some "(";
    from = number_of;
    equal = same_words;
  };
  contracts = λ token. record {
    events = "Transfer(" ∷ "Burn(" ∷ [];
    parse_log = λ log. ok (arguments_of log.payload);
  };
  repayment_emitted = λ receipt payer debtor amount. false;
}

abbrev logs : List Log
logs =
    (record { address = "0xda1"; topics = "Transfer(" ∷ []; payload = "out" })
    ∷ (record { address = "0xa0"; topics = "Transfer(" ∷ []; payload = "burnt" })
    ∷ (record { address = "0xa0"; topics = "Burn(" ∷ []; payload = "scaled" })
    ∷ []

abbrev receipt : Receipt
receipt = record World.receipt { logs = some logs }

abbrev sent : Call → Bool → Outcome × Bool
sent (Call.withdraw sender reserve amount to) moved = (mined receipt, true)
sent call moved = (refused "no", moved)

abbrev chain : Chain
chain = record World.chain { send = sent }

abbrev suite : Suite
suite = record World.suite { chain = chain }

withdraw_run : withdraw suite observer "0x1" "0xda1" "100" "0x2" false ≡ (ok receipt, true)
unfolding withdraw mined_call check_events submit await_mined follow match_all Expect.withdraw
    get_balance_increase ray_mul ray_div convert_to_currency_decimals
withdraw_run = refl

withdraw_returns_exactly_example :
    (withdraw suite observer "0x1" "0xda1" "100" "0x2" false ≡ (ok receipt, true))
    ↔ IsWithdrawn integers-Documented suite observer "0x1" "0xda1" "100" "0x2" false receipt true
withdraw_returns_exactly_example =
    withdraw_returns_exactly integers-Documented suite observer "0x1" "0xda1" "100" "0x2" false true
      receipt refl
