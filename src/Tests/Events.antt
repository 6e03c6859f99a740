-- ===== src/Tests/Events.antt =====
-- The theorems about events at a withdrawal.
use Prim.Native.String.{String}
use package.text.Mathlib.Text.{◌==◌ as str_eq}
use lend_core.Prelude.{◌≡◌, refl, ◌↔◌, ◌*◌, ◌^◌, List, [], ◌∷◌, some, Bool, true, false}
use lend_core.Prelude.Int.{ℤ, pos}
use lend_core.Prelude.Result.{Result, ok, err, type_error}
use lend_core.BigNumber.{integers, integers-Documented}
use lend_core.WadRay.{ray_mul, ray_div}
use lend_core.Events.{
  Argument, scalar, big_number, word, Log, EventContract, Builtins, sig_hash, match_event,
}
use lend_core.Events.Emission.{Emitted, match_event-Emitted}
use lend_core.Events.Tokens.{
  Expected, h_token, underlying_token, zero_address, address_arg, number_arg, transfer_of,
  scaled_event, get_balance_increase, withdraw,
}
use lend_core.Events.Balances.{withdrawing, events_of, Moves}
use lend_core.Events.Conservation.{expected_events-Moves}

abbrev pub number_of : Argument → Result ℤ
number_of (scalar (big_number n)) = ok n
number_of other = err type_error

abbrev pub same_words : Argument → Argument → Bool
same_words (scalar (word a)) (scalar (word b)) = str_eq a b
same_words a b = false

abbrev builtins : Builtins
builtins = record {
  keccak256 = λ text. text;
  starts_with = λ text prefix. true;
  text_length = λ text. 8;
  char_at = λ text index. some "(";
  from = number_of;
  equal = same_words;
}

abbrev transfer_args : List Argument
transfer_args = address_arg "0xa0" ∷ address_arg "0x2" ∷ number_arg (pos 100) ∷ []

abbrev contract : EventContract
contract = record {
  events = "Transfer(address,address,uint256)" ∷ [];
  parse_log = λ log. ok transfer_args;
}

abbrev logs : List Log
logs =
    (record { address = "0xda1"; topics = "Transfer(address,address,uint256)" ∷ []; payload = "" })
    ∷ []

match_event-Emitted_example :
    (match_event builtins "Transfer" contract (some "0xda1") (some transfer_args) (some logs)
      ≡ ok tt)
    ↔ ((hash : String) × (sig_hash builtins "Transfer" contract
            (some "0xda1")
            (some transfer_args)
            contract.events
          ≡ some hash)
        × Emitted builtins "Transfer" contract (some "0xda1") (some transfer_args) hash logs)
match_event-Emitted_example =
    match_event-Emitted builtins "Transfer" contract (some "0xda1") (some transfer_args) logs

abbrev withdrawal : List Expected
withdrawal =
    transfer_of underlying_token "0xda1" "0xa0" "0x2" (pos 100)
    ∷ transfer_of h_token "0xa0" "0x1" zero_address (pos 50)
    ∷ scaled_event "Burn" h_token "0xa0" "0x1" "0x2" (pos 50) (pos 50) (pos (2 * 10 ^ 27))
    ∷ []

withdrawn :
    events_of "0x1" "0x2" "0xda1" "0xa0" "0xc0"
      (pos 100)
      (pos (10 ^ 27))
      (pos (2 * 10 ^ 27))
      (pos 0)
      withdrawing
    ≡ ok withdrawal
unfolding events_of withdraw get_balance_increase ray_mul ray_div
withdrawn = refl

expected_events-Moves_example :
    Moves "0x1" "0x2" "0xda1" "0xa0" "0xc0"
      (pos 100)
      (pos (10 ^ 27))
      (pos (2 * 10 ^ 27))
      (pos 0)
      withdrawing
      withdrawal
expected_events-Moves_example =
    expected_events-Moves integers-Documented "0x1" "0x2" "0xda1" "0xa0" "0xc0" (pos 100)
      (pos (10 ^ 27)) (pos (2 * 10 ^ 27)) (pos 0) withdrawal withdrawing refl withdrawn
