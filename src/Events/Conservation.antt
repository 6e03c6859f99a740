-- ===== src/Events/Conservation.antt =====
-- The expected events and the balances, for every BigNumber that keeps to its documentation.
use Prim.Native.String.{String}
use package.text.Mathlib.Text.{◌==◌ as str_eq}
use lend_core.Prelude.{◌≡◌, List, false}
use lend_core.Prelude.Int.{ℤ}
use lend_core.Prelude.Result.{ok}
use lend_core.BigNumber.{BigNumberApi, Documented, Documented-integers}
use lend_core.Events.Tokens.{Expected, zero_address}
use lend_core.Events.Balances.{TokenAction, events_of, Moves}
use lend_core.Events.Minting.{events-Moves}

module _ ⦃big : BigNumberApi⦄ (doc : Documented big) where
  -- Whatever branch is taken, the transfers from and to the zero address that are expected after a
  -- supply, a withdrawal, a variable borrow or its repayment add up to the change of the account's
  -- balance: the interest since the last index on the scaled balance before, plus the amount that
  -- is supplied or borrowed, or less the one that is withdrawn or repaid. The account is not the
  -- zero address.
  pub expected_events-Moves :
      (owner other underlying h_address debt : String) (amount before after scaled : ℤ)
      (es : List Expected) (action : TokenAction)
      → str_eq owner zero_address ≡ false
      → events_of owner other underlying h_address debt amount before after scaled action ≡ ok es
      → Moves owner other underlying h_address debt amount before after scaled action es
  expected_events-Moves owner other underlying h_address debt amount before after scaled es action
        real =
      rw (Documented-integers big doc) (
        events-Moves owner other underlying h_address debt amount before after scaled es real
          action)
