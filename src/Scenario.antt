-- ===== src/Scenario.antt =====
-- test-suites/helpers/scenario-engine.ts: the stories of a scenario, whose actions are JSON objects.
pub mod Dispatch
pub mod Runs
pub mod Needs
pub mod Throwing
pub mod Called
pub mod Calling
pub mod Missing
pub mod Complete
use Prim.Native.String.{String, ◌++◌}
use package.text.Mathlib.Text.{◌==◌ as str_eq}
use lend_core.Prelude.{ℕ, zero, suc, List, [], ◌∷◌, Option, none, some, if◌then◌else◌}
use lend_core.Prelude.Int.{ℤ, pos, negsuc, ◌+ℤ◌}
use lend_core.Prelude.Result.{Result, defined}
use lend_core.Types.{RateMode}
use lend_core.Actions.{given}

-- The arguments that the engine reads, each of which a scenario may leave out.
pub record Arguments : Type 0 where
  pub reserve : Option String
  pub user : Option String
  pub borrow_rate_mode : Option String
  pub amount : Option String
  pub send_value : Option String
  pub on_behalf_of : Option String
  pub to_user : Option String
  pub time_travel : Option String
  pub use_as_collateral : Option String
  pub target : Option String

pub record Action : Type 0 where
  pub name : Option String
  pub args : Option Arguments
  pub expected : Option String
  pub revert_message : Option String

pub record Story : Type 0 where
  pub description : String
  pub actions : List Action

pub record Scenario : Type 0 where
  pub title : String
  pub description : String
  pub stories : List Story

-- The addresses of the test environment's users, the secret keys of the test wallets, and
-- JavaScript's `parseInt`, where `none` is `NaN`.
pub record Users : Type 0 where
  pub addresses : List String
  pub secret_keys : List String
  pub parse_int : String → Option ℤ

-- `array[index]`
unfoldable pub nth : List String → ℕ → Option String
nth [] n = none
nth (x ∷ rest) zero = some x
nth (x ∷ rest) (suc n) = nth rest n

unfoldable pub at : List String → Option ℤ → Option String
unfolding nth
at array none = none
at array (some (pos n)) = nth array n
at array (some (negsuc n)) = none

unfoldable pub plus_one : Option ℤ → Option ℤ
plus_one none = none
plus_one (some n) = some (n +ℤ pos 1)

-- `parseInt(text)` of a text that may be `undefined`
unfoldable pub parsed : Users → Option String → Option ℤ
parsed users none = none
parsed users (some text) = users.parse_int text

unfoldable pub mode_of : Option String → RateMode
mode_of none = RateMode.rate_none
mode_of (some text) =
    if str_eq text "none"
    then RateMode.rate_none
    else if str_eq text "stable"
    then RateMode.stable
    else if str_eq text "variable"
    then RateMode.variable
    else RateMode.improper "4"

-- `index ? users[parseInt(index)] : user`
unfoldable pub chosen : Users → Option String → Option String → Option String
unfolding at
chosen users none user = user
chosen users (some index) user = at users.addresses (users.parse_int index)
