-- ===== src/Interest/Values.antt =====
-- The interest formulas and indexes of calculations.ts on the integers, where rates and indexes
-- are not negative and time does not run backwards.
use lend_core.Prelude.{
  ℕ, ◌-◌, ◌*◌, ◌/◌, ◌≤◌, ◌≡◌, refl, arith, Bool-cases, inl, inr, ◌==◌, ltb, ap, true, false, Bool,
  ◌||◌, if◌then◌else◌,
}
use lend_core.Prelude.Int.{pos, sub_ℕ, sub_ℕ_ge}
use lend_core.Prelude.Result.{ok}
use lend_core.BigNumber.{integers}
use lend_core.Constants.{one_year}
use lend_core.WadRay.Fixed
use lend_core.WadRay.Values.{ray_mul-pos}
use lend_core.Interest.{
  calc_linear_interest, calc_compounded_interest, calc_expected_reserve_normalized_debt,
  calc_expected_stable_debt_token_balance, calc_expected_total_stable_debt,
  calc_expected_reserve_normalized_income, calc_expected_liquidity_index,
  calc_expected_variable_borrow_index, calc_expected_h_token_balance,
  calc_expected_variable_debt_token_balance,
}
use lend_core.Snapshot.{Snapshot, reserve_of, UserSnapshot, user_of}
use lend_core.Interest.Fixed as Formula

-- The two indexes of the next update.
unfoldable pub next_liquidity_index : Snapshot → ℕ → ℕ
next_liquidity_index s now =
    if s.supply_usage_ratio == 0
    then s.liquidity_index
    else Fixed.mul (Formula.linear s.liquidity_rate (now - s.last_update_timestamp))
        s.liquidity_index

unfoldable pub next_variable_borrow_index : Snapshot → ℕ → ℕ
next_variable_borrow_index s now =
    if s.total_variable_debt == 0
    then s.variable_borrow_index
    else Fixed.mul (Formula.compounded s.variable_borrow_rate (now - s.last_update_timestamp))
        s.variable_borrow_index

pub calc_linear_interest-pos :
    (rate now last : ℕ)
    → last ≤ now
    → calc_linear_interest (pos rate) (pos now) (pos last)
      ≡ ok (pos (Formula.linear rate (now - last)))
unfolding calc_linear_interest Formula.linear
calc_linear_interest-pos rate now last h = rw (sub_ℕ_ge now last h)

minus_two : (s : ℕ) → (if ltb 2 s then sub_ℕ s 2 else pos 0) ≡ pos (s - 2)
minus_two s = ground arith

zero_of_test : (s : ℕ) → (s == 0) ≡ true → s ≡ 0
zero_of_test s h = ground arith

pos_of_test : (s : ℕ) → (s == 0) ≡ false → 1 ≤ s
pos_of_test s h = ground arith

pub calc_compounded_interest-pos :
    (rate now last : ℕ)
    → last ≤ now
    → calc_compounded_interest (pos rate) (pos now) (pos last)
      ≡ ok (pos (Formula.compounded rate (now - last)))
unfolding calc_compounded_interest Formula.compounded Formula.base_power_two
    Formula.base_power_three
calc_compounded_interest-pos rate now last h =
    rw (sub_ℕ_ge now last h) (elim (Bool-cases (now - last == 0)) [
      | inl z ↦ rw (zero_of_test (now - last) z) (ap ok (ap pos (omega arith)))
      | inr p ↦ rw (
        p,
        sub_ℕ_ge (now - last) 1 (pos_of_test (now - last) p),
        minus_two (now - last),
        ray_mul-pos rate rate,
        ray_mul-pos (Fixed.mul rate rate / (one_year * one_year)) rate,
      )
    ])

-- Without a rate the code skips the product; the product with one ray is the same.
pub calc_expected_reserve_normalized_debt-pos :
    (rate index last now : ℕ)
    → last ≤ now
    → calc_expected_reserve_normalized_debt (pos rate) (pos index) (pos last) (pos now)
      ≡ ok (pos (Fixed.mul (Formula.compounded rate (now - last)) index))
unfolding calc_expected_reserve_normalized_debt
calc_expected_reserve_normalized_debt-pos rate index last now h = elim (Bool-cases (rate == 0)) [
  | inl z ↦ rw (zero_of_test rate z, Formula.compounded_no_rate, Fixed.ray-mul)
  | inr p ↦ rw (p, calc_compounded_interest-pos rate now last h, ray_mul-pos)
]

pub calc_expected_total_stable_debt-pos :
    (principal rate last now : ℕ)
    → last ≤ now
    → calc_expected_total_stable_debt (pos principal) (pos rate) (pos last) (pos now)
      ≡ ok (pos (Fixed.mul (Formula.compounded rate (now - last)) principal))
unfolding calc_expected_total_stable_debt
calc_expected_total_stable_debt-pos principal rate last now h =
    rw (calc_compounded_interest-pos rate now last h, ray_mul-pos)

module _ (s : Snapshot) (now : ℕ) (h : s.last_update_timestamp ≤ now) where
  pub calc_expected_reserve_normalized_income-pos :
      calc_expected_reserve_normalized_income (reserve_of s) (pos now)
      ≡ ok (
          pos (
            Fixed.mul
              (Formula.linear s.liquidity_rate (now - s.last_update_timestamp))
              s.liquidity_index))
  unfolding calc_expected_reserve_normalized_income
  calc_expected_reserve_normalized_income-pos = elim (Bool-cases (s.liquidity_rate == 0)) [
    | inl z ↦ rw (z, zero_of_test s.liquidity_rate z, Formula.linear_no_rate, Fixed.ray-mul)
    | inr p ↦
        rw (p, calc_linear_interest-pos s.liquidity_rate now s.last_update_timestamp h, ray_mul-pos)
  ]

  -- The index grows only where the supply is in use.
  pub calc_expected_liquidity_index-pos :
      calc_expected_liquidity_index (reserve_of s) (pos now) ≡ ok (pos (next_liquidity_index s now))
  unfolding calc_expected_liquidity_index next_liquidity_index
  calc_expected_liquidity_index-pos = elim (Bool-cases (s.supply_usage_ratio == 0)) [
    | inl z ↦ rw z
    | inr p ↦
        rw (p, calc_linear_interest-pos s.liquidity_rate now s.last_update_timestamp h, ray_mul-pos)
  ]

  pub calc_expected_variable_borrow_index-pos :
      calc_expected_variable_borrow_index (reserve_of s) (pos now)
      ≡ ok (pos (next_variable_borrow_index s now))
  unfolding calc_expected_variable_borrow_index next_variable_borrow_index
  calc_expected_variable_borrow_index-pos = elim (Bool-cases (s.total_variable_debt == 0)) [
    | inl z ↦ rw z
    | inr p ↦ rw (
      p,
      calc_compounded_interest-pos s.variable_borrow_rate now s.last_update_timestamp h,
      ray_mul-pos,
    )
  ]

  module _ (u : UserSnapshot) where
    pub calc_expected_h_token_balance-pos :
        calc_expected_h_token_balance (reserve_of s) (user_of u) (pos now)
        ≡ ok (
            pos (
              Fixed.mul u.scaled_h_token_balance (
                Fixed.mul
                  (Formula.linear s.liquidity_rate (now - s.last_update_timestamp))
                  s.liquidity_index)))
    unfolding calc_expected_h_token_balance
    calc_expected_h_token_balance-pos =
        rw (calc_expected_reserve_normalized_income-pos, ray_mul-pos)

    pub calc_expected_variable_debt_token_balance-pos :
        calc_expected_variable_debt_token_balance (reserve_of s) (user_of u) (pos now)
        ≡ ok (
            pos (
              Fixed.mul u.scaled_variable_debt (
                Fixed.mul
                  (Formula.compounded s.variable_borrow_rate (now - s.last_update_timestamp))
                  s.variable_borrow_index)))
    unfolding calc_expected_variable_debt_token_balance
    calc_expected_variable_debt_token_balance-pos = rw (
      calc_expected_reserve_normalized_debt-pos s.variable_borrow_rate s.variable_borrow_index
          s.last_update_timestamp now h,
      ray_mul-pos,
    )

-- A stable debt that was never updated does not accrue.
unfoldable pub stable_balance : ℕ → ℕ → ℕ → ℕ → ℕ
stable_balance principal rate last now =
    if last == 0 then principal else Fixed.mul principal (Formula.compounded rate (now - last))

or_true : (b c : Bool) → (b || (c || true)) ≡ true
or_true true c = refl
or_true false true = refl
or_true false false = refl

test_of_eq : (a b : ℕ) → (a == b) ≡ true → a ≡ b
test_of_eq a b h = ground arith

no_time : (now last : ℕ) → now ≡ last → now - last ≡ 0
no_time now last e = omega arith

pub calc_expected_stable_debt_token_balance-pos :
    (principal rate last now : ℕ)
    → last ≤ now
    → calc_expected_stable_debt_token_balance (pos principal) (pos rate) (pos last) (pos now)
      ≡ ok (pos (stable_balance principal rate last now))
unfolding calc_expected_stable_debt_token_balance stable_balance
calc_expected_stable_debt_token_balance-pos principal rate last now h =
    elim (Bool-cases (last == 0)) [
      | inl never ↦ rw (never, or_true (rate == 0) (now == last))
      | inr updated ↦ elim (Bool-cases (rate == 0)) [
        | inl z ↦ rw (updated, z, zero_of_test rate z, Formula.compounded_no_rate, Fixed.mul-ray)
        | inr p ↦ elim (Bool-cases (now == last)) [
          | inl same ↦ rw (
            updated,
            p,
            same,
            no_time now last (test_of_eq now last same),
            Formula.compounded_zero,
            Fixed.mul-ray,
          )
          | inr past ↦
              rw (updated, p, past, calc_compounded_interest-pos rate now last h, ray_mul-pos)
        ]
      ]
    ]
