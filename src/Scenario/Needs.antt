-- ===== src/Scenario/Needs.antt =====
-- test-suites/helpers/scenario-engine.ts: what an action needs so that `executeAction` can call it.
use Prim.Native.String.{String}
use package.text.Mathlib.Text.{◌==◌ as str_eq}
use lend_core.Prelude.{List, [], ◌∷◌, Option, none, some, Bool, true, false, ◌&&◌, if◌then◌else◌}
use lend_core.Actions.{given}
use lend_core.Scenario.{Arguments, Action, Users, at, plus_one, parsed, chosen}

-- An argument that an action may need beside the reserve, the user and the expected result
pub data Need : Type 0 where
  amount : Need
  beneficiary : Need
  recipient : Need
  collateral_choice : Need
  rebalanced_user : Need

-- What each action needs, by its name
abbrev pub needs : List (String × List Need)
needs =
    ("mint", amount ∷ [])
    ∷ ("approve", [])
    ∷ ("deposit", beneficiary ∷ amount ∷ [])
    ∷ ("supplyWithPermit", beneficiary ∷ amount ∷ [])
    ∷ ("delegateBorrowAllowance", recipient ∷ amount ∷ [])
    ∷ ("withdraw", amount ∷ [])
    ∷ ("borrow", beneficiary ∷ amount ∷ [])
    ∷ ("repay", amount ∷ beneficiary ∷ [])
    ∷ ("repayWithPermit", amount ∷ beneficiary ∷ [])
    ∷ ("setUseAsCollateral", collateral_choice ∷ [])
    ∷ ("swapBorrowRateMode", [])
    ∷ ("rebalanceStableBorrowRate", rebalanced_user ∷ [])
    ∷ []

abbrev pub is_some : {A : Type 0} → Option A → Bool
is_some none = false
is_some (some a) = true

-- An account that an argument names by its index
abbrev pub has_account : Users → Option String → Bool
has_account users none = false
has_account users (some index) = is_some (at users.addresses (users.parse_int index))

module _ (users : Users) (args : Arguments) where
  -- The user of the action stands in for a beneficiary that is not named.
  abbrev pub has : Need → Bool
  has amount = is_some (given args.amount)
  has beneficiary = is_some (chosen users (given args.on_behalf_of) (some ""))
  has recipient = is_some (at users.addresses (parsed users args.to_user))
  has collateral_choice = is_some (given args.use_as_collateral)
  has rebalanced_user = has_account users (given args.target)

  abbrev pub has_all : List Need → Bool
  has_all [] = true
  has_all (need ∷ rest) = has need && has_all rest

  -- The name is one of the table, and the arguments have what it needs.
  abbrev pub fulfils : List (String × List Need) → String → Bool
  fulfils [] name = false
  fulfils ((other, list) ∷ rest) name =
      if str_eq name other then has_all list else fulfils rest name

  abbrev pub has_wallet : Option String → Bool
  has_wallet none = false
  has_wallet (some index) = is_some (at users.secret_keys (plus_one (users.parse_int index)))

  abbrev pub is_known : Option String → Bool
  is_known none = false
  is_known (some name) = fulfils needs name

-- The action has a known name with what it needs, a reserve, a user with an address and with a
-- wallet after the first one, and an expected result.
unfoldable pub is_complete : Users → Action → Bool
unfolding given at plus_one parsed chosen
is_complete users action = elim action.args [
  | none ↦ false
  | some args ↦
      is_known users args (given action.name)
      && (is_some (given args.reserve)
          && (is_some (given action.expected)
              && (has_wallet users args (given args.user) && has_account users (given args.user))))
]
