-- ===== src/Reserve/Consistent.antt =====
-- The liquidity and the usage ratios of a reserve after each action, for every BigNumber.
use lend_core.Prelude.{sym, some, ◌≡◌, refl}
use lend_core.Prelude.Int.{ℤ}
use lend_core.Prelude.Result.{
  Result, ok, ◌>>=◌, defined, Ensures, read-Ensures, call-Ensures, then-Ensures, >>=-Ensures,
}
use lend_core.BigNumber.{BigNumberApi}
use lend_core.Types.{ReserveData, UserReserveData, Configuration, RateMode}
use lend_core.Rates.{calc_expected_usage_ratios}
use lend_core.State.{
  update_usage_ratios, update_total_liquidity_and_usage_ratio, update_liquidity_and_usage_ratios,
}
use lend_core.Reserve.Liquidity.{
  after_liquidity_change, calc_expected_reserve_data_after_deposit,
  calc_expected_reserve_data_after_withdraw,
}
use lend_core.Reserve.Bridge.{
  after_bridging, calc_expected_reserve_data_after_mint_unbacked,
  calc_expected_reserve_data_after_back_unbacked,
}
use lend_core.Reserve.Borrow.{
  update_rates_for, borrow_stable, borrow_variable, borrow_by_mode,
  calc_expected_reserve_data_after_borrow,
}
use lend_core.Reserve.Repay.{calc_expected_reserve_data_after_repay}
use lend_core.Reserve.Swap.{
  after_debt_change, calc_expected_reserve_data_after_swap_rate_mode,
  calc_expected_reserve_data_after_stable_rate_rebalance,
}

module _ ⦃big : BigNumberApi⦄ where
  open big use {add}

  -- The total liquidity is the available liquidity and what is not backed.
  pub HasLiquidity : ReserveData → Type 0
  HasLiquidity r =
      (a u : ℤ) × (r.available_liquidity ≡ some a)
      × (r.unbacked ≡ some u)
      × (r.total_liquidity ≡ some (add a u))

  -- So it is, and the two usage ratios are those of the reserve's own debts and liquidity.
  unfoldable pub IsConsistent : ReserveData → Type 0
  IsConsistent r =
      (a u stable variable b s : ℤ) × (r.available_liquidity ≡ some a)
      × (r.unbacked ≡ some u)
      × (r.total_liquidity ≡ some (add a u))
      × (r.total_stable_debt ≡ some stable)
      × (r.total_variable_debt ≡ some variable)
      × (calc_expected_usage_ratios stable variable a (add a u) ≡ ok (b, s))
      × (r.borrow_usage_ratio ≡ some b)
      × (r.supply_usage_ratio ≡ some s)

  pub update_usage_ratios-IsConsistent :
      (r : ReserveData) → HasLiquidity r → Ensures IsConsistent (update_usage_ratios r)
  unfolding update_usage_ratios IsConsistent HasLiquidity
  update_usage_ratios-IsConsistent r (a, u, ea, eu, et) =
      read-Ensures IsConsistent r.total_stable_debt _ (λ stable es.
        read-Ensures IsConsistent r.total_variable_debt _ (λ variable ev.
          read-Ensures IsConsistent r.available_liquidity _ (λ a' ea'.
            read-Ensures IsConsistent r.total_liquidity _ (λ t et'.
              call-Ensures IsConsistent (calc_expected_usage_ratios stable variable a' t) _
                (λ ratios ec.
                  let total : t ≡ add a' u = cc in
                  (
                    a',
                    u,
                    stable,
                    variable,
                    ratios.0,
                    ratios.1,
                    ea',
                    eu,
                    cc,
                    es,
                    ev,
                    (rw (sym total) ec),
                    refl,
                    refl,
                  ))))))

  total_liquidity-IsConsistent :
      (r : ReserveData) → Ensures IsConsistent (update_total_liquidity_and_usage_ratio r)
  unfolding update_total_liquidity_and_usage_ratio HasLiquidity
  total_liquidity-IsConsistent r = read-Ensures IsConsistent r.available_liquidity _ (λ a ea.
      read-Ensures IsConsistent r.unbacked _ (λ u eu.
        update_usage_ratios-IsConsistent (record r { total_liquidity = some (add a u) })
          (a, u, ea, eu, refl)))

  liquidity-IsConsistent :
      (before expected : ReserveData) (added taken : ℤ)
      → Ensures IsConsistent (update_liquidity_and_usage_ratios before expected added taken)
  unfolding update_liquidity_and_usage_ratios
  liquidity-IsConsistent before expected added taken =
      >>=-Ensures IsConsistent (defined before.available_liquidity) _
        (λ a. search total_liquidity-IsConsistent)

  IsConsistent-HasLiquidity : (r : ReserveData) → IsConsistent r → HasLiquidity r
  unfolding IsConsistent HasLiquidity
  IsConsistent-HasLiquidity r (a, u, stable, variable, b, s, ea, eu, et, es, ev, ec, eb, eq) =
      (a, u, ea, eu, et)

  module _ (reserves_params : Configuration) where
    update_rates_for-HasLiquidity :
        (before expected : ReserveData) (stable variable : ℤ)
        → HasLiquidity expected
        → Ensures HasLiquidity (update_rates_for reserves_params before expected stable variable)
    unfolding update_rates_for HasLiquidity
    update_rates_for-HasLiquidity before expected stable variable h =
        search (>>=-Ensures, h) depth 10

    rates_then :
        (before expected : ReserveData) (stable variable : ℤ) (f : ReserveData → Result ReserveData)
        → HasLiquidity expected
        → ((rated : ReserveData) → HasLiquidity rated → Ensures IsConsistent (f rated))
        → Ensures IsConsistent
            (update_rates_for reserves_params before expected stable variable >>= f)
    rates_then before expected stable variable f h =
        then-Ensures HasLiquidity IsConsistent _ f
          (update_rates_for-HasLiquidity before expected stable variable h)

    ratios_then :
        (expected : ReserveData) (f : ReserveData → Result ReserveData)
        → HasLiquidity expected
        → ((next : ReserveData) → HasLiquidity next → Ensures IsConsistent (f next))
        → Ensures IsConsistent (update_usage_ratios expected >>= f)
    ratios_then expected f h k =
        then-Ensures IsConsistent IsConsistent _ f (update_usage_ratios-IsConsistent expected h)
          (λ next c. k next (IsConsistent-HasLiquidity next c))

    borrow_stable-IsConsistent :
        (amount : ℤ) (before moved : ReserveData) (tx now : ℤ)
        → HasLiquidity moved
        → Ensures IsConsistent (borrow_stable reserves_params amount before moved tx now)
    unfolding borrow_stable HasLiquidity
    borrow_stable-IsConsistent amount before moved tx now h =
        search (rates_then, >>=-Ensures, update_usage_ratios-IsConsistent, h) depth 16

    after_liquidity_change-IsConsistent :
        (before updated : ReserveData) (added taken : ℤ)
        → Ensures IsConsistent (after_liquidity_change reserves_params before updated added taken)
    unfolding after_liquidity_change
    after_liquidity_change-IsConsistent before updated added taken =
        search (>>=-Ensures, total_liquidity-IsConsistent) depth 10

    after_bridging-IsConsistent :
        (before updated : ReserveData) (added : ℤ)
        → Ensures IsConsistent (after_bridging reserves_params before updated added)
    unfolding after_bridging
    after_bridging-IsConsistent before updated added =
        search (>>=-Ensures, total_liquidity-IsConsistent) depth 10

    after_debt_change-IsConsistent :
        (before changed : ReserveData)
        → Ensures IsConsistent (after_debt_change reserves_params before changed)
    unfolding after_debt_change
    after_debt_change-IsConsistent before changed =
        search (>>=-Ensures, total_liquidity-IsConsistent) depth 10

    borrow_variable-IsConsistent :
        (amount : ℤ) (before moved : ReserveData) (tx now : ℤ)
        → HasLiquidity moved
        → Ensures IsConsistent (borrow_variable reserves_params amount before moved tx now)
    unfolding borrow_variable HasLiquidity
    borrow_variable-IsConsistent amount before moved tx now h =
        search (ratios_then, rates_then, >>=-Ensures, update_usage_ratios-IsConsistent, h) depth 20

    borrow_by_mode-IsConsistent :
        (mode : RateMode) (amount : ℤ) (before moved : ReserveData) (tx now : ℤ)
        → HasLiquidity moved
        → Ensures IsConsistent (borrow_by_mode reserves_params mode amount before moved tx now)
    unfolding borrow_by_mode
    borrow_by_mode-IsConsistent RateMode.stable = borrow_stable-IsConsistent
    borrow_by_mode-IsConsistent RateMode.variable = borrow_variable-IsConsistent
    borrow_by_mode-IsConsistent RateMode.rate_none = borrow_variable-IsConsistent
    borrow_by_mode-IsConsistent (RateMode.improper text) = borrow_variable-IsConsistent

    liquidity_then :
        (before expected : ReserveData) (added taken : ℤ) (f : ReserveData → Result ReserveData)
        → ((moved : ReserveData) → HasLiquidity moved → Ensures IsConsistent (f moved))
        → Ensures IsConsistent (update_liquidity_and_usage_ratios before expected added taken >>= f)
    liquidity_then before expected added taken f k =
        then-Ensures IsConsistent IsConsistent _ f
          (liquidity-IsConsistent before expected added taken)
          (λ moved c. k moved (IsConsistent-HasLiquidity moved c))

    -- Whatever number type the calculations run on, the reserve that they return after an action
    -- is consistent: its total liquidity is its available liquidity and its unbacked amount, and
    -- its usage ratios are those of its own debts and liquidity. So it is after a deposit, a
    -- withdrawal, a mint without backing, a backing, a borrow and a repayment of every rate mode,
    -- a swap of the rate mode, and a rebalance of a stable rate.
    pub actions-IsConsistent :
        (amount scaled_supply fee protocol_fee : ℤ) (mode : RateMode) (before : ReserveData)
        (user : UserReserveData) (tx now : ℤ)
        → Ensures IsConsistent
            (calc_expected_reserve_data_after_deposit reserves_params amount before tx)
          × Ensures IsConsistent
              (calc_expected_reserve_data_after_withdraw reserves_params amount before user tx)
          × Ensures IsConsistent
              (calc_expected_reserve_data_after_mint_unbacked reserves_params amount before tx)
          × Ensures IsConsistent (
              calc_expected_reserve_data_after_back_unbacked reserves_params scaled_supply amount
                fee protocol_fee before tx)
          × Ensures IsConsistent
              (calc_expected_reserve_data_after_borrow reserves_params amount mode before tx now)
          × Ensures IsConsistent
              (calc_expected_reserve_data_after_repay reserves_params amount mode before user tx)
          × Ensures IsConsistent
              (calc_expected_reserve_data_after_swap_rate_mode reserves_params before user mode tx)
          × Ensures IsConsistent (
              calc_expected_reserve_data_after_stable_rate_rebalance reserves_params before user tx)
    unfolding calc_expected_reserve_data_after_deposit calc_expected_reserve_data_after_withdraw
        calc_expected_reserve_data_after_mint_unbacked
        calc_expected_reserve_data_after_back_unbacked calc_expected_reserve_data_after_borrow
        calc_expected_reserve_data_after_repay calc_expected_reserve_data_after_swap_rate_mode
        calc_expected_reserve_data_after_stable_rate_rebalance
    actions-IsConsistent amount scaled_supply fee protocol_fee mode before user tx now = (
      (search (>>=-Ensures, after_liquidity_change-IsConsistent)),
      (search (>>=-Ensures, after_liquidity_change-IsConsistent)),
      (search (>>=-Ensures, after_bridging-IsConsistent)),
      (search (>>=-Ensures, after_bridging-IsConsistent)),
      (search (liquidity_then, >>=-Ensures, borrow_by_mode-IsConsistent)),
      (search (>>=-Ensures, total_liquidity-IsConsistent) depth 16),
      (search (>>=-Ensures, after_debt_change-IsConsistent) depth 16),
      (search (>>=-Ensures, after_debt_change-IsConsistent) depth 16),
    )
