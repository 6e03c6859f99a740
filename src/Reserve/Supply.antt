-- ===== src/Reserve/Supply.antt =====
-- The reserve after a deposit and after a withdrawal, from complete data, for every BigNumber
-- that keeps to its documentation.
use Prim.Native.String.{String}
use lend_core.Prelude.{ℕ, ◌+◌, ◌-◌, ◌≤◌, ◌<◌, ◌≡◌, refl, arith, some, ◌==◌, false}
use lend_core.Prelude.Int.{pos}
use lend_core.Prelude.Result.{ok}
use lend_core.BigNumber.{BigNumberApi, Documented, Documented-integers}
use lend_core.Constants.{percentage_factor, max_uint_amount}
use lend_core.Types.{ReserveData, UserReserveData, Configuration}
use lend_core.Rates.Fixed.{Strategy, IsValid}
use lend_core.Rates.Values.{IsConfigured}
use lend_core.Snapshot.{Snapshot, reserve_of}
use lend_core.State.Values.{IsSound, update_state-pos}
use lend_core.Reserve.Liquidity.{
  copied, calc_expected_reserve_data_after_deposit, calc_expected_reserve_data_after_withdraw,
  withdrawn_amount,
}
use lend_core.State.Growth.{next_treasury_ge}
use lend_core.Interest.Growth.{next_liquidity_index_ge, next_variable_borrow_index_ge}
use lend_core.Reserve.Totals.{changed, after_liquidity_change-pos}

module _ ⦃big : BigNumberApi⦄ (doc : Documented big) (name : String) (strategy : Strategy)
    (valid : IsValid strategy) (params : Configuration) (s : Snapshot) (now : ℕ)
    (configured : IsConfigured name strategy valid params s.symbol s.reserve_factor)
    (factor : s.reserve_factor ≤ percentage_factor) (sound : IsSound s now) where
  -- A deposit into a configured reserve with sound data returns. The available liquidity grows by
  -- the amount and so does the total liquidity, which is the available one and what is unbacked;
  -- neither index and not the treasury's amount falls, and the scaled variable debt, the
  -- principal and the average rate of the stable debt stay.
  pub deposit_returns :
      (amount : ℕ)
      → (r : ReserveData) × (i j t : ℕ) × (calc_expected_reserve_data_after_deposit params
            (pos amount)
            (reserve_of s)
            (pos now)
          ≡ ok r)
        × (r.available_liquidity ≡ some (pos (s.available_liquidity + amount)))
        × (r.total_liquidity ≡ some (pos (s.available_liquidity + amount + s.unbacked)))
        × (r.liquidity_index ≡ some (pos i))
        × (s.liquidity_index ≤ i)
        × (r.variable_borrow_index ≡ some (pos j))
        × (s.variable_borrow_index ≤ j)
        × (r.accrued_to_treasury_scaled ≡ some (pos t))
        × (s.accrued_to_treasury_scaled ≤ t)
        × (r.scaled_variable_debt ≡ some (pos s.scaled_variable_debt))
        × (r.principal_stable_debt ≡ some (pos s.principal_stable_debt))
        × (r.average_stable_borrow_rate ≡ some (pos s.average_stable_borrow_rate))
  unfolding calc_expected_reserve_data_after_deposit
  deposit_returns amount = rw (Documented-integers big doc) (
    changed name strategy valid params s now configured factor (s.available_liquidity + amount),
    _,
    _,
    _,
    rw (
      update_state-pos s now sound (copied (reserve_of s)),
      after_liquidity_change-pos name strategy valid params s now configured factor amount 0
          (s.available_liquidity + amount) (omega arith) (omega arith),
    ),
    refl,
    refl,
    refl,
    next_liquidity_index_ge s now,
    refl,
    next_variable_borrow_index_ge s now,
    refl,
    next_treasury_ge s now,
    refl,
    refl,
    refl,
  )

  -- A withdrawal of at most the available liquidity, by an amount that does not stand for the
  -- whole balance, returns as well, and takes the amount from the available liquidity. The debts
  -- and the treasury end as after a deposit.
  pub withdraw_returns :
      (user : UserReserveData) (amount deposited : ℕ)
      → amount ≤ s.available_liquidity
      → amount < max_uint_amount
      → (r d : ReserveData) × (calc_expected_reserve_data_after_withdraw params
            (pos amount)
            (reserve_of s)
            user
            (pos now)
          ≡ ok r)
        × (calc_expected_reserve_data_after_deposit params (pos deposited) (reserve_of s) (pos now)
            ≡ ok d)
        × (r.available_liquidity ≡ some (pos (s.available_liquidity - amount)))
        × (r.total_liquidity ≡ some (pos (s.available_liquidity - amount + s.unbacked)))
        × (r.liquidity_index ≡ d.liquidity_index)
        × (r.variable_borrow_index ≡ d.variable_borrow_index)
        × (r.total_stable_debt ≡ d.total_stable_debt)
        × (r.total_variable_debt ≡ d.total_variable_debt)
        × (r.accrued_to_treasury_scaled ≡ d.accrued_to_treasury_scaled)
  unfolding calc_expected_reserve_data_after_deposit calc_expected_reserve_data_after_withdraw
      withdrawn_amount
  withdraw_returns user amount deposited h k =
      let not_max : (amount == max_uint_amount) ≡ false = ground arith in
      rw (Documented-integers big doc) (
        changed name strategy valid params s now configured factor (s.available_liquidity - amount),
        changed name strategy valid params s now configured factor
            (s.available_liquidity + deposited),
        rw (
          not_max,
          update_state-pos s now sound (copied (reserve_of s)),
          after_liquidity_change-pos name strategy valid params s now configured factor 0 amount
              (s.available_liquidity - amount) (omega arith) (omega arith),
        ),
        rw (
          update_state-pos s now sound (copied (reserve_of s)),
          after_liquidity_change-pos name strategy valid params s now configured factor deposited 0
              (s.available_liquidity + deposited) (omega arith) (omega arith),
        ),
        refl,
        refl,
        refl,
        refl,
        refl,
        refl,
        refl,
      )
