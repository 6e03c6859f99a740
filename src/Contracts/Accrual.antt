-- ===== src/Contracts/Accrual.antt =====
-- calculations.ts against MathUtils.sol.
use lend_core.Prelude.{
  ℕ, ◌+◌, ◌-◌, ◌*◌, ◌/◌, ◌≤◌, ◌≡◌, refl, some, arith, ltb, if◌then◌else◌, ◌==◌, Bool-cases, inl,
  inr, true,
}
use lend_core.Prelude.Int.{pos}
use lend_core.Prelude.Result.{ok}
use lend_core.BigNumber.{BigNumberApi, Documented, Documented-integers}
use lend_core.Constants.{ray, one_year}
use lend_core.WadRay.Fixed
use lend_core.Interest.{calc_linear_interest, calc_compounded_interest}
use lend_core.Interest.Fixed as Formula
use lend_core.Interest.Values.{calc_linear_interest-pos, calc_compounded_interest-pos}
use lend_core.Contracts.Words.{
  Returns, Returns-some, >>=-Returns, Returns-eq, checked_sub, checked_mul, checked_add,
  checked-Returns, checked_sub-Returns, checked_sub-le,
}
use lend_core.Contracts.WadRayMath
use lend_core.Contracts.MathUtils.{
  calculate_linear_interest, compounded_terms, calculate_compounded_interest,
}
use lend_core.Contracts.Agreement.{ray_mul-Returns}

minus_two : (exp : ℕ) → (if ltb 2 exp then exp - 2 else 0) ≡ exp - 2
minus_two exp = ground arith

linear-Returns :
    (rate last now : ℕ)
    → Returns (Formula.linear rate (now - last)) (calculate_linear_interest rate last now)
unfolding calculate_linear_interest Formula.linear
linear-Returns rate last now =
    >>=-Returns (now - last) _ (checked_sub now last) _ (checked_sub-Returns now last) (
      >>=-Returns (rate * (now - last)) _ (checked_mul rate (now - last)) _
        (checked-Returns _ _ refl) (checked-Returns _ _ (omega arith)))

terms-Returns : (rate exp : ℕ) → Returns (Formula.compounded rate exp) (compounded_terms rate exp)
unfolding compounded_terms Formula.compounded Formula.base_power_two Formula.base_power_three
terms-Returns rate exp =
    let squared = Fixed.mul rate rate in
    let two = squared / (one_year * one_year) in
    let cubed = Fixed.mul two rate in
    let three = cubed / one_year in
    let pairs = exp * (exp - 1) in
    let triples = pairs * (exp - 2) in
    let first : ℕ = ray + rate * exp / one_year in
    let second = first + pairs * two / 2 in
    >>=-Returns squared _ (WadRayMath.ray_mul rate rate) _ (ray_mul-Returns rate rate) (
      >>=-Returns cubed _ (WadRayMath.ray_mul two rate) _ (ray_mul-Returns two rate) (
        >>=-Returns pairs _ (checked_mul exp (exp - 1)) _ (checked-Returns _ _ refl) (
          >>=-Returns (pairs * two) _ (checked_mul pairs two) _ (checked-Returns _ _ refl) (
            >>=-Returns triples _ (checked_mul pairs (if ltb 2 exp then exp - 2 else 0)) _
              (checked-Returns _ _ (rw (minus_two exp)))
              (>>=-Returns (triples * three) _ (checked_mul triples three) _
                (checked-Returns _ _ refl)
                (>>=-Returns (rate * exp) _ (checked_mul rate exp) _ (checked-Returns _ _ refl) (
                  >>=-Returns first _ (checked_add ray (rate * exp / one_year)) _
                    (checked-Returns _ _ refl)
                    (>>=-Returns second _ (checked_add first (pairs * two / 2)) _
                      (checked-Returns _ _ refl) (checked-Returns _ _ refl)))))))))

zero_of_test : (n : ℕ) → (n == 0) ≡ true → n ≡ 0
zero_of_test n h = ground arith

guarded_terms-Returns :
    (rate exp : ℕ)
    → Returns
        (Formula.compounded rate exp)
        (if exp == 0 then some ray else compounded_terms rate exp)
guarded_terms-Returns rate exp = elim (Bool-cases (exp == 0)) [
  | inl z ↦ rw (zero_of_test exp z, Formula.compounded_zero) (Returns-some ray)
  | inr p ↦ rw p (terms-Returns rate exp)
]

compounded-Returns :
    (rate last now : ℕ)
    → Returns (Formula.compounded rate (now - last)) (calculate_compounded_interest rate last now)
unfolding calculate_compounded_interest
compounded-Returns rate last now =
    >>=-Returns (now - last) _ (checked_sub now last) _ (checked_sub-Returns now last)
      (guarded_terms-Returns rate (now - last))

module _ ⦃big : BigNumberApi⦄ (doc : Documented big) (rate last now c : ℕ) where
  -- Whatever linear interest `MathUtils.calculateLinearInterest` returns without reverting, the
  -- TypeScript function returns too.
  pub linear_interest_agrees :
      calculate_linear_interest rate last now ≡ some c
      → calc_linear_interest (pos rate) (pos now) (pos last) ≡ ok (pos c)
  linear_interest_agrees e =
      let ordered : last ≤ now = unfold calculate_linear_interest in checked_sub-le now last _ e in
      rw (Documented-integers big doc, Returns-eq _ c _ (linear-Returns rate last now) e)
        (calc_linear_interest-pos rate now last ordered)

  -- Whatever compounded interest `MathUtils.calculateCompoundedInterest` returns without
  -- reverting, the TypeScript function returns too.
  pub compounded_interest_agrees :
      calculate_compounded_interest rate last now ≡ some c
      → calc_compounded_interest (pos rate) (pos now) (pos last) ≡ ok (pos c)
  compounded_interest_agrees e =
      let ordered : last ≤ now =
        unfold calculate_compounded_interest in checked_sub-le now last _ e in
      rw (Documented-integers big doc, Returns-eq _ c _ (compounded-Returns rate last now) e)
        (calc_compounded_interest-pos rate now last ordered)
