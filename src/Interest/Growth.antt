-- ===== src/Interest/Growth.antt =====
-- Interest only ever grows: the formulas, the indexes and the balances of calculations.ts over
-- time, for every BigNumber that keeps to its documentation.
use lend_core.Prelude.{ℕ, ◌-◌, ◌≤◌, ◌≡◌, arith}
use lend_core.Prelude.Int.{pos}
use lend_core.Prelude.Result.{ok}
use lend_core.BigNumber.{BigNumberApi, Documented, Documented-integers}
use lend_core.Constants.{ray}
use lend_core.WadRay.Fixed
use lend_core.Snapshot.{Snapshot, reserve_of, UserSnapshot, user_of}
use lend_core.Interest.{
  calc_linear_interest, calc_compounded_interest, calc_expected_liquidity_index,
  calc_expected_variable_borrow_index, calc_expected_h_token_balance,
  calc_expected_variable_debt_token_balance, calc_expected_stable_debt_token_balance,
}
use lend_core.Interest.Fixed as Formula
use lend_core.Interest.Values.{
  next_liquidity_index, next_variable_borrow_index, calc_linear_interest-pos,
  calc_compounded_interest-pos, calc_expected_liquidity_index-pos,
  calc_expected_variable_borrow_index-pos, calc_expected_h_token_balance-pos,
  calc_expected_variable_debt_token_balance-pos, stable_balance,
  calc_expected_stable_debt_token_balance-pos,
}

pub ray-le-compounded : (rate s : ℕ) → ray ≤ Formula.compounded rate s
ray-le-compounded rate s =
    omega (arith, Formula.ray-le-linear rate s, Formula.linear-le-compounded rate s)

pub next_liquidity_index_ge :
    (s : Snapshot) (now : ℕ) → s.liquidity_index ≤ next_liquidity_index s now
unfolding next_liquidity_index
next_liquidity_index_ge s now =
    let t = now - s.last_update_timestamp in
    ground (
      arith,
      Fixed.le-mul (Formula.linear s.liquidity_rate t) s.liquidity_index,
      Formula.ray-le-linear s.liquidity_rate t,
    )

pub next_variable_borrow_index_ge :
    (s : Snapshot) (now : ℕ) → s.variable_borrow_index ≤ next_variable_borrow_index s now
unfolding next_variable_borrow_index
next_variable_borrow_index_ge s now =
    let t = now - s.last_update_timestamp in
    ground (
      arith,
      Fixed.le-mul (Formula.compounded s.variable_borrow_rate t) s.variable_borrow_index,
      ray-le-compounded s.variable_borrow_rate t,
    )

mul_mono_left : (a a' b : ℕ) → a ≤ a' → Fixed.mul a b ≤ Fixed.mul a' b
mul_mono_left a a' b h = Fixed.mul_mono a a' b b h (omega arith)

mul_mono_right : (a b b' : ℕ) → b ≤ b' → Fixed.mul a b ≤ Fixed.mul a b'
mul_mono_right a b b' h = Fixed.mul_mono a a b b' (omega arith) h

stable_balance_mono :
    (principal rate last now later : ℕ)
    → now ≤ later
    → stable_balance principal rate last now ≤ stable_balance principal rate last later
unfolding stable_balance
stable_balance_mono principal rate last now later h =
    let grown = Formula.compounded_mono rate (now - last) (later - last) (omega arith) in
    ground (arith, mul_mono_right principal _ _ grown)

stable_balance_ge :
    (principal rate last now : ℕ) → principal ≤ stable_balance principal rate last now
unfolding stable_balance
stable_balance_ge principal rate last now = ground (
  arith,
  Fixed.mul-ray principal,
  mul_mono_right principal ray _ (ray-le-compounded rate (now - last)),
)

stable_balance_no_rate : (principal last now : ℕ) → stable_balance principal 0 last now ≡ principal
unfolding stable_balance
stable_balance_no_rate principal last now =
    ground (arith, Fixed.mul-ray principal, Formula.compounded_no_rate (now - last))

module _ ⦃big : BigNumberApi⦄ (doc : Documented big) where
  -- Both interest factors are returned for every rate and every later time; they are at least
  -- one ray, the compounded one is at least the linear one, and neither falls if more time passes.
  pub interest_grows :
      (rate last now later : ℕ)
      → last ≤ now
      → now ≤ later
      → (l l' c c' : ℕ) × (calc_linear_interest (pos rate) (pos now) (pos last) ≡ ok (pos l))
        × (calc_linear_interest (pos rate) (pos later) (pos last) ≡ ok (pos l'))
        × (calc_compounded_interest (pos rate) (pos now) (pos last) ≡ ok (pos c))
        × (calc_compounded_interest (pos rate) (pos later) (pos last) ≡ ok (pos c'))
        × (ray ≤ l)
        × (l ≤ l')
        × (l ≤ c)
        × (c ≤ c')
  interest_grows rate last now later h k = rw (Documented-integers big doc) (
    _,
    _,
    _,
    _,
    calc_linear_interest-pos rate now last h,
    calc_linear_interest-pos rate later last (omega arith),
    calc_compounded_interest-pos rate now last h,
    calc_compounded_interest-pos rate later last (omega arith),
    Formula.ray-le-linear rate (now - last),
    Formula.linear_mono rate (now - last) (later - last) (omega arith),
    Formula.linear-le-compounded rate (now - last),
    Formula.compounded_mono rate (now - last) (later - last) (omega arith),
  )

  -- The next liquidity index and the next variable borrow index of complete data are returned and
  -- are at least the current ones; without supply in use, or without variable debt, they are the
  -- current ones.
  pub indexes_grow :
      (s : Snapshot) (now : ℕ)
      → s.last_update_timestamp ≤ now
      → (i j : ℕ) × (calc_expected_liquidity_index (reserve_of s) (pos now) ≡ ok (pos i))
        × (calc_expected_variable_borrow_index (reserve_of s) (pos now) ≡ ok (pos j))
        × (s.liquidity_index ≤ i)
        × (s.variable_borrow_index ≤ j)
        × (s.supply_usage_ratio ≡ 0 → i ≡ s.liquidity_index)
        × (s.total_variable_debt ≡ 0 → j ≡ s.variable_borrow_index)
  unfolding next_liquidity_index next_variable_borrow_index
  indexes_grow s now h = rw (Documented-integers big doc) (
    _,
    _,
    calc_expected_liquidity_index-pos s now h,
    calc_expected_variable_borrow_index-pos s now h,
    next_liquidity_index_ge s now,
    next_variable_borrow_index_ge s now,
    (λ e. ground arith),
    (λ e. ground arith),
  )

  -- The hToken balance and the variable debt of a user are returned at every time from the last
  -- update on, and neither falls as time passes.
  pub balances_grow :
      (s : Snapshot) (u : UserSnapshot) (now later : ℕ)
      → s.last_update_timestamp ≤ now
      → now ≤ later
      → (b b' d d' : ℕ) × (calc_expected_h_token_balance (reserve_of s) (user_of u) (pos now)
          ≡ ok (pos b))
        × (calc_expected_h_token_balance (reserve_of s) (user_of u) (pos later) ≡ ok (pos b'))
        × (calc_expected_variable_debt_token_balance (reserve_of s) (user_of u) (pos now)
            ≡ ok (pos d))
        × (calc_expected_variable_debt_token_balance (reserve_of s) (user_of u) (pos later)
            ≡ ok (pos d'))
        × (b ≤ b')
        × (d ≤ d')
  balances_grow s u now later h k = rw (Documented-integers big doc) (
    _,
    _,
    _,
    _,
    calc_expected_h_token_balance-pos s now h u,
    calc_expected_h_token_balance-pos s later (omega arith) u,
    calc_expected_variable_debt_token_balance-pos s now h u,
    calc_expected_variable_debt_token_balance-pos s later (omega arith) u,
    mul_mono_right _ _ _ (
        mul_mono_left _ _ _ (
          Formula.linear_mono s.liquidity_rate (now - s.last_update_timestamp)
            (later - s.last_update_timestamp) (omega arith))),
    mul_mono_right _ _ _ (
        mul_mono_left _ _ _ (
          Formula.compounded_mono s.variable_borrow_rate (now - s.last_update_timestamp)
            (later - s.last_update_timestamp) (omega arith))),
  )

  -- The stable debt of a user is returned at every time from its last update on; it is at least
  -- the principal, it does not fall as time passes, and without a rate it is the principal.
  pub stable_debt_grows :
      (principal rate last now later : ℕ)
      → last ≤ now
      → now ≤ later
      → (b b' : ℕ) × (calc_expected_stable_debt_token_balance
            (pos principal)
            (pos rate)
            (pos last)
            (pos now)
          ≡ ok (pos b))
        × (calc_expected_stable_debt_token_balance (pos principal) (pos rate) (pos last) (pos later)
            ≡ ok (pos b'))
        × (principal ≤ b)
        × (b ≤ b')
        × (rate ≡ 0 → b ≡ principal)
  stable_debt_grows principal rate last now later h k = rw (Documented-integers big doc) (
    _,
    _,
    calc_expected_stable_debt_token_balance-pos principal rate last now h,
    calc_expected_stable_debt_token_balance-pos principal rate last later (omega arith),
    stable_balance_ge principal rate last now,
    stable_balance_mono principal rate last now later k,
    (λ e. rw e (stable_balance_no_rate principal last now)),
  )
