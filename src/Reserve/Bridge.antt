-- ===== src/Reserve/Bridge.antt =====
-- The reserve after hTokens are minted without backing, and after they are backed.
use lend_core.Prelude.{some, if◌then◌else◌}
use lend_core.Prelude.Int.{ℤ, pos}
use lend_core.Prelude.Result.{Result, ok, ◌>>=◌, defined}
use lend_core.BigNumber.{BigNumberApi}
use lend_core.Types.{ReserveData, Configuration, empty_reserve}
use lend_core.WadRay.{ray, ray_mul, ray_div, percent_mul, wad_to_ray}
use lend_core.Rates.{calc_expected_average_stable_borrow_rate}
use lend_core.State.{
  update_state, update_liquidity_and_usage_ratios, update_interest_rates,
  update_total_liquidity_and_usage_ratio,
}

-- `{}` with the two fields that the bridge actions copy first.
abbrev copied : ReserveData → ReserveData
copied before = record empty_reserve {
  address = before.address;
  reserve_factor = before.reserve_factor;
}

module _ ⦃big : BigNumberApi⦄ where
  open big use {add, sub, lt}

  -- The local function of `calcExpectedReserveDataAfterBackUnbacked`.
  unfoldable pub cumulate_to_liquidity_index : ℤ → ℤ → ℤ → Result ℤ
  cumulate_to_liquidity_index liquidity_index total_liquidity amount = do
    amount_to_liquidity_ratio ← ray_div (wad_to_ray amount) (wad_to_ray total_liquidity)
    ray_mul (add amount_to_liquidity_ratio ray) liquidity_index

  unfoldable pub min_amount : ℤ → ℤ → ℤ
  min_amount amount unbacked = if lt amount unbacked then amount else unbacked

  -- The fee of the bridge: the liquidity index grows by the suppliers' part, and the treasury
  -- gets the protocol's part.
  unfoldable pub share_fee : ℤ → ℤ → ℤ → ReserveData → Result ReserveData
  unfolding cumulate_to_liquidity_index
  share_fee scaled_h_token_supply fee bridge_protocol_fee updated = do
    premium_to_protocol ← percent_mul fee bridge_protocol_fee
    let premium_to_lp = sub fee premium_to_protocol
    liquidity_index ← defined updated.liquidity_index
    accrued_to_treasury_scaled ← defined updated.accrued_to_treasury_scaled
    total_supply ← ray_mul scaled_h_token_supply liquidity_index
    accrued ← ray_mul accrued_to_treasury_scaled liquidity_index
    next_liquidity_index ←
        cumulate_to_liquidity_index liquidity_index (add total_supply accrued) premium_to_lp
    to_treasury ← ray_div premium_to_protocol next_liquidity_index
    ok (record updated {
      liquidity_index = some next_liquidity_index;
      accrued_to_treasury_scaled = some (add accrued_to_treasury_scaled to_treasury);
    })

module _ ⦃big : BigNumberApi⦄ (reserves_params : Configuration) where
  open big use {add, sub}

  -- The common end of the two bridge actions.
  unfoldable pub after_bridging : ReserveData → ReserveData → ℤ → Result ReserveData
  after_bridging before updated added = do
    moved ← update_liquidity_and_usage_ratios before updated added (pos 0)
    average_before ← defined before.average_stable_borrow_rate
    total_stable_debt_before ← defined before.total_stable_debt
    stable_borrow_rate_before ← defined before.stable_borrow_rate
    average ←
        calc_expected_average_stable_borrow_rate average_before total_stable_debt_before (pos 0)
          stable_borrow_rate_before
    rated ←
        update_interest_rates reserves_params before
          (record moved { average_stable_borrow_rate = some average })
    update_total_liquidity_and_usage_ratio rated

  unfoldable pub calc_expected_reserve_data_after_mint_unbacked :
      ℤ → ReserveData → ℤ → Result ReserveData
  unfolding after_bridging
  calc_expected_reserve_data_after_mint_unbacked amount_minted before tx_timestamp = do
    updated ← update_state before (copied before) tx_timestamp
    unbacked ← defined before.unbacked
    after_bridging before (record updated { unbacked = some (add unbacked amount_minted) }) (pos 0)

  unfoldable pub calc_expected_reserve_data_after_back_unbacked :
      ℤ → ℤ → ℤ → ℤ → ReserveData → ℤ → Result ReserveData
  unfolding after_bridging share_fee min_amount
  calc_expected_reserve_data_after_back_unbacked scaled_h_token_supply amount fee
        bridge_protocol_fee before tx_timestamp =
      do
        updated ← update_state before (copied before) tx_timestamp
        unbacked ← defined before.unbacked
        let backing_amount = min_amount amount unbacked
        shared ← share_fee scaled_h_token_supply fee bridge_protocol_fee updated
        after_bridging before (record shared { unbacked = some (sub unbacked backing_amount) })
            (add backing_amount fee)
