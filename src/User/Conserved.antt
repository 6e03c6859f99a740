-- ===== src/User/Conserved.antt =====
-- The debt of a user before and after a swap of the rate mode and a repayment at the variable rate,
-- from complete data, for every BigNumber that keeps to its documentation.
use Prim.Native.String.{String}
use text.Mathlib.Text.{◌==◌ as str_eq}
use lend_core.Prelude.{ℕ, ◌+◌, ◌-◌, ◌≤◌, ◌<◌, ◌≡◌, refl, sym, subst, ◌∙◌, some, true, false, arith}
use lend_core.Prelude.Int.{pos}
use lend_core.Prelude.Result.{ok}
use lend_core.BigNumber as Big
use lend_core.BigNumber.{BigNumberApi, Documented, Documented-integers}
use lend_core.Constants
use lend_core.Constants.{max_uint_amount}
use lend_core.Types.{UserReserveData, RateMode}
use lend_core.WadRay.{ray_mul}
use lend_core.WadRay.Fixed
use lend_core.WadRay.Fixed.{quotient_bounds, quotient_le}
use lend_core.WadRay.Values.{ray_mul-pos}
use lend_core.Snapshot.{Snapshot, reserve_of, UserSnapshot, user_of}
use lend_core.User.Supply.{debts_at}
use lend_core.User.Debt.{calc_expected_user_data_after_repay}
use lend_core.User.Values.{IsLater, stable_debt, variable_debt, debts_at-pos}
use lend_core.User.DebtOutcomes.{variable_repaid, variable_repaid-pos}
use lend_core.WadRay.Scaled.{IsNear, taken-IsNear, div_le}

ok_pos_injective : (a b : ℕ) → ok (pos a) ≡ ok (pos b) → a ≡ b
ok_pos_injective a b h = cc

module _ ⦃big : BigNumberApi⦄ (doc : Documented big) (s after : Snapshot) (u : UserSnapshot)
    (now : ℕ) (later : IsLater s u now) where
  -- A repayment at the variable rate, of an amount that is at most the variable debt at the new
  -- index and does not stand for the whole debt, returns, if the index is at least one ray and the
  -- wallet holds the amount. The variable debt that is left and the amount are near the variable
  -- debt at the new index: their sum differs from it by at most one and half the index in rays. The
  -- wallet loses the amount if the user repays the own debt, and nothing if another account does. The
  -- stable debt of now becomes the principal, and the principal of before the current stable debt.
  pub repay_keeps_debt :
      (tx amount base : ℕ) (payer on_behalf_of : String)
      → s.last_update_timestamp ≤ tx
      → amount < max_uint_amount
      → amount ≤ u.wallet_balance
      → Constants.ray ≤ after.variable_borrow_index
      → ray_mul (pos u.scaled_variable_debt) (pos after.variable_borrow_index) ≡ ok (pos base)
      → amount ≤ base
      → (e : UserReserveData) × (stable variable debt : ℕ) × (calc_expected_user_data_after_repay
            (pos amount)
            RateMode.variable
            (reserve_of s)
            (reserve_of after)
            (user_of u)
            payer
            on_behalf_of
            (pos tx)
            (pos now)
          ≡ ok e)
        × (debts_at (reserve_of s) (user_of u) (pos now) ≡ ok (pos stable, pos variable))
        × (e.current_variable_debt ≡ some (pos debt))
        × IsNear after.variable_borrow_index (debt + amount) base
        × (str_eq payer on_behalf_of ≡ true
            → e.wallet_balance ≡ some (pos (u.wallet_balance - amount)))
        × (str_eq payer on_behalf_of ≡ false → e.wallet_balance ≡ some (pos u.wallet_balance))
        × (e.principal_stable_debt ≡ some (pos stable))
        × (e.current_stable_debt ≡ some (pos u.principal_stable_debt))
  repay_keeps_debt tx amount base payer on_behalf_of h k w p =
      rw (Documented-integers big doc) (λ based most.
        let same : base ≡ Fixed.mul u.scaled_variable_debt after.variable_borrow_index =
          ok_pos_injective _ _
            (sym based ∙ ray_mul-pos u.scaled_variable_debt after.variable_borrow_index) in
        let covered =
          div_le u.scaled_variable_debt amount after.variable_borrow_index p
            (subst (λ b. amount ≤ b) same most) in
        (
          variable_repaid s after u now later tx amount (str_eq payer on_behalf_of),
          stable_debt s u now,
          variable_debt s u now,
          _,
          variable_repaid-pos s after u now later tx amount payer on_behalf_of h k w (omega arith)
              covered,
          debts_at-pos s u now later,
          refl,
          rw same (
              taken-IsNear u.scaled_variable_debt amount after.variable_borrow_index (omega arith)
                covered),
          (λ own. rw own),
          (λ other. rw other),
          refl,
          refl,
        ))
