-- ===== src/Events/Balances.antt =====
-- The transfers that are expected from and to the zero address, and the balances of the tokens.
use Prim.Native.String.{String}
use package.text.Mathlib.Text.{◌==◌ as str_eq}
use lend_core.Prelude.{◌≡◌, List, [], ◌∷◌, Bool, true, false, if◌then◌else◌, ◌&&◌}
use lend_core.Prelude.Int.{ℤ, pos, ◌+ℤ◌, ◌-ℤ◌, neg_ℤ}
use lend_core.Prelude.Result.{Result, ok}
use lend_core.BigNumber.{BigNumberApi}
use lend_core.WadRay.{ray_div}
use lend_core.Events.{Argument, big_number, word, scalar}
use lend_core.Events.Tokens.{
  Token, underlying_token, h_token, debt_token, Expected, zero_address, get_balance_increase,
  supply, withdraw, variable_borrow, repay_variable_borrow,
}

-- What a transfer means for the balance of an account: minted, burnt, or neither
unfoldable pub moved : String → List Argument → ℤ → ℤ
moved owner (scalar (word from) ∷ scalar (word to) ∷ scalar (big_number value) ∷ []) rest =
    if str_eq from zero_address && str_eq to owner
    then value +ℤ rest
    else if str_eq from owner && str_eq to zero_address
    then neg_ℤ value +ℤ rest
    else rest
moved owner other rest = rest

abbrev pub is_issued : Token → Bool
is_issued underlying_token = false
is_issued h_token = true
is_issued debt_token = true

-- The sum over the expected `Transfer` events of the hToken and of the debt token
unfoldable pub minted : String → List Expected → ℤ
minted owner [] = pos 0
minted owner (e ∷ rest) =
    let others = minted owner rest in
    if str_eq e.name "Transfer" && is_issued e.token then moved owner e.args others else others

-- The actions that mint or burn hTokens or variable debt
pub data TokenAction : Type 0 where
  supplying : TokenAction
  withdrawing : TokenAction
  borrowing : TokenAction
  repaying : TokenAction

-- Whether the amount is added to the balance
abbrev pub adds : TokenAction → Bool
adds supplying = true
adds withdrawing = false
adds borrowing = true
adds repaying = false

-- `owner` is the account whose balance moves, and `other` another account of the call.
module _ ⦃big : BigNumberApi⦄ (owner other underlying h_address debt : String)
    (amount before after scaled : ℤ) where
  -- `owner` is the account whose balance moves, and `other` another account of the call.
  unfoldable pub events_of : TokenAction → Result (List Expected)
  events_of supplying = supply other underlying h_address amount before after owner scaled
  events_of withdrawing = withdraw owner underlying h_address amount before after other scaled
  events_of borrowing =
      variable_borrow other underlying h_address amount before after debt owner scaled
  events_of repaying =
      repay_variable_borrow other underlying h_address amount before after debt owner scaled

  -- The balance grows by its interest, and by the amount or against it.
  unfoldable pub Moves : TokenAction → List Expected → Type 0
  Moves action es =
      (added increase : ℤ) × (ray_div amount after ≡ ok added)
      × (get_balance_increase (if adds action then scaled -ℤ added else scaled +ℤ added) before
            after
          ≡ ok increase)
      × (minted owner es ≡ (if adds action then amount +ℤ increase else increase -ℤ amount))
