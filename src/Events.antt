-- ===== src/Events.antt =====
-- test-suites/helpers/utils/helpers.ts: `matchEvent`, the search for an event among the logs of a
-- transaction.
pub mod Emission
pub mod Tokens
pub mod Transfers
pub mod Balances
pub mod Minting
pub mod Conservation
pub mod Runs
pub mod Withdrawn
use Prim.Native.String.{String, ◌++◌}
use package.text.Mathlib.Text.{◌==◌ as str_eq}
use lend_core.Prelude.{
  ℕ, zero, suc, ◌+◌, ◌==◌, List, [], ◌∷◌, Option, none, some, Bool, true, false, not, ◌&&◌,
  if◌then◌else◌,
}
use lend_core.Prelude.Int.{ℤ}
use lend_core.Prelude.Result.{Result, ok, err, thrown, type_error, ◌>>=◌}
use lend_core.BigNumber.{BigNumberApi}

-- A BigNumber, or a value that `!=` compares: an address, a text, a truth value as its text
pub data Scalar : Type 0 where
  big_number : ℤ → Scalar
  word : String → Scalar

pub data Argument : Type 0 where
  scalar : Scalar → Argument
  array : List Scalar → Argument

pub record Log : Type 0 where
  pub address : String
  pub topics : List String
  pub payload : String

-- The interface of a contract: the signatures of its events, and the arguments that a log holds.
pub record EventContract : Type 0 where
  pub events : List String
  pub parse_log : Log → Result (List Argument)

-- What JavaScript and ethers do with texts and values: the hash of a signature, the prefix, the
-- length and a character of a text, the number that `BigNumber.from` reads, and `==`.
pub record Builtins : Type 0 where
  pub keccak256 : String → String
  pub starts_with : String → String → Bool
  pub text_length : String → ℕ
  pub char_at : String → ℕ → Option String
  pub from : Argument → Result ℤ
  pub equal : Argument → Argument → Bool

unfoldable pub length : {A : Type 0} → List A → ℕ
length [] = 0
length (x ∷ rest) = suc (length rest)

unfoldable pub item_of : List Scalar → ℕ → Option Scalar
item_of [] n = none
item_of (x ∷ rest) zero = some x
item_of (x ∷ rest) (suc n) = item_of rest n

-- An empty array stands for empty bytes.
unfoldable pub normalized : Argument → Argument
normalized (array []) = scalar (word "0x")
normalized (array (x ∷ rest)) = array (x ∷ rest)
normalized (scalar x) = scalar x

module _ ⦃big : BigNumberApi⦄ (js : Builtins) where
  open big use {eq}

  as_word : Option String → Option Scalar
  as_word none = none
  as_word (some text) = some (word text)

  -- `expected[j]`
  unfoldable pub element : Argument → ℕ → Option Scalar
  unfolding item_of as_word
  element (array items) j = item_of items j
  element (scalar (word text)) j = as_word (js.char_at text j)
  element (scalar (big_number n)) j = none

  -- An element of an array, and the element that is expected in its place
  unfoldable pub same_element : Option Scalar → Scalar → Result Bool
  same_element none (big_number n) = err type_error
  same_element none (word text) = ok false
  same_element (some e) (big_number n) = do value ← js.from (scalar e); ok (eq n value)
  same_element (some e) (word text) = ok (js.equal (scalar (word text)) (scalar e))

  -- The elements from index `j` on; the loop stops at the first difference.
  unfoldable pub same_elements : Argument → ℕ → List Scalar → Result Bool
  unfolding element same_element
  same_elements expected j [] = ok true
  same_elements expected j (param ∷ params) = do
    same ← same_element (element expected j) param
    let rest = same_elements expected (suc j) params
    if same then rest else ok false

  unfoldable pub same_argument : Argument → Argument → Result Bool
  unfolding same_elements
  same_argument expected (scalar (big_number n)) = do value ← js.from expected; ok (eq n value)
  same_argument expected (array params) = same_elements expected 0 params
  same_argument expected (scalar (word text)) = ok (js.equal (scalar (word text)) expected)

  -- As many arguments as are expected have been counted before.
  unfoldable pub same_arguments : List Argument → List Argument → Result Bool
  unfolding normalized same_argument
  same_arguments [] actual = ok true
  same_arguments (e ∷ expected) [] = err type_error
  same_arguments (e ∷ expected) (a ∷ actual) = do
    same ← same_argument (normalized e) a
    let rest = same_arguments expected actual
    if same then rest else ok false

  module _ (name : String) (contract : EventContract) (emitter : Option String)
      (expected_args : Option (List Argument)) where
    unfoldable pub is_named : String → Bool
    is_named signature =
        js.starts_with signature name && (elim (js.char_at signature (js.text_length name)) [
          | none ↦ false
          | some c ↦ str_eq c "("
        ])

    -- The hash of the first event of the contract that has the name
    unfoldable pub sig_hash : List String → Option String
    unfolding is_named
    sig_hash [] = none
    sig_hash (event ∷ events) =
        let rest = sig_hash events in if is_named event then some (js.keccak256 event) else rest

    -- An empty emitter is none.
    unfoldable pub emitted_by : Option String → String → Bool
    emitted_by none address = true
    emitted_by (some wanted) address = if str_eq wanted "" then true else str_eq address wanted

    first_topic : List String → String → Bool
    first_topic [] hash = false
    first_topic (topic ∷ topics) hash = str_eq topic hash

    unfoldable pub is_candidate : String → Log → Bool
    unfolding emitted_by first_topic
    is_candidate hash log = first_topic log.topics hash && emitted_by emitter log.address

    unfoldable pub fits : Option (List Argument) → List Argument → Result Bool
    unfolding length same_arguments
    fits none actual = ok true
    fits (some expected) actual =
        if length expected == length actual
        then same_arguments expected actual
        else err (
            thrown (
              "Event \"" ++ name
              ++ "\" emitted with correct signature, but expected args are of invalid length"))

    -- The text where no log has been accepted, by whether the last candidate had other arguments
    unfoldable pub not_found : Bool → Result (Unit {0})
    not_found true =
        err (thrown ("Event \"" ++ name ++ "\" found in logs but with unexpected args"))
    not_found false = err (
        thrown (
          "Event \""
          ++ name
          ++ "\" not found emitted by \""
          ++ elim emitter [ none ↦ "undefined" | some address ↦ address ]
          ++ "\" in given transaction log"))

    -- A candidate: the event is found, or the search goes on.
    unfoldable pub judged : Log → Result (Unit {0}) → Result (Unit {0})
    unfolding fits
    judged log go_on = do
      actual ← contract.parse_log log
      matches ← fits expected_args actual
      if matches then ok tt else go_on

    unfoldable pub scan : String → Bool → List Log → Result (Unit {0})
    unfolding is_candidate judged not_found
    scan hash invalid [] = not_found invalid
    scan hash invalid (log ∷ logs) =
        let skip = scan hash invalid logs in
        let go_on = scan hash true logs in if is_candidate hash log then judged log go_on else skip

    unfoldable pub scan_for : Option String → List Log → Result (Unit {0})
    unfolding scan
    scan_for none logs = err (
        thrown (
          "Event \"" ++ name
          ++ "\" not found in provided contract. \nAre you sure you're using the right "
          ++ "contract?"))
    scan_for (some hash) logs = scan hash false logs

    unfoldable pub match_event : Option (List Log) → Result (Unit {0})
    unfolding sig_hash scan_for
    match_event none = err (thrown "No events were emitted")
    match_event (some logs) = scan_for (sig_hash contract.events) logs
