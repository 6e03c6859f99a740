-- ===== src/Errors.antt =====
-- `ProtocolErrors` of helpers/types.ts: the texts with which the contracts revert.
pub mod Texts
use Prim.Native.String.{String}

pub data ProtocolErrors : Type 0 where
  caller_not_pool_admin caller_not_emergency_admin : ProtocolErrors
  caller_not_pool_or_emergency_admin caller_not_risk_or_pool_admin : ProtocolErrors
  caller_not_asset_listing_or_pool_admin caller_not_bridge : ProtocolErrors
  addresses_provider_not_registered invalid_addresses_provider_id : ProtocolErrors
  not_contract caller_not_pool_configurator : ProtocolErrors
  caller_not_htoken invalid_addresses_provider : ProtocolErrors
  invalid_flashloan_executor_return reserve_already_added : ProtocolErrors
  no_more_reserves_allowed emode_category_reserved : ProtocolErrors
  invalid_emode_category_assignment reserve_liquidity_not_zero : ProtocolErrors
  flashloan_premium_invalid invalid_reserve_params : ProtocolErrors
  invalid_emode_category_params bridge_protocol_fee_invalid : ProtocolErrors
  caller_must_be_pool invalid_mint_amount : ProtocolErrors
  invalid_burn_amount invalid_amount : ProtocolErrors
  reserve_inactive reserve_frozen : ProtocolErrors
  reserve_paused borrowing_not_enabled : ProtocolErrors
  stable_borrowing_not_enabled not_enough_available_user_balance : ProtocolErrors
  invalid_interest_rate_mode_selected collateral_balance_is_zero : ProtocolErrors
  health_factor_lower_than_liquidation_threshold collateral_cannot_cover_new_borrow : ProtocolErrors
  collateral_same_as_borrowing_currency amount_bigger_than_max_loan_size_stable : ProtocolErrors
  no_debt_of_selected_type no_explicit_amount_to_repay_on_behalf : ProtocolErrors
  no_outstanding_stable_debt no_outstanding_variable_debt : ProtocolErrors
  underlying_balance_zero interest_rate_rebalance_conditions_not_met : ProtocolErrors
  health_factor_not_below_threshold collateral_cannot_be_liquidated : ProtocolErrors
  specified_currency_not_borrowed_by_user inconsistent_flashloan_params : ProtocolErrors
  borrow_cap_exceeded supply_cap_exceeded : ProtocolErrors
  unbacked_mint_cap_exceeded debt_ceiling_exceeded : ProtocolErrors
  underlying_claimable_rights_not_zero stable_debt_not_zero : ProtocolErrors
  variable_debt_supply_not_zero ltv_validation_failed : ProtocolErrors
  inconsistent_emode_category price_oracle_sentinel_check_failed : ProtocolErrors
  asset_not_borrowable_in_isolation reserve_already_initialized : ProtocolErrors
  user_in_isolation_mode invalid_ltv : ProtocolErrors
  invalid_liq_threshold invalid_liq_bonus : ProtocolErrors
  invalid_decimals invalid_reserve_factor : ProtocolErrors
  invalid_borrow_cap invalid_supply_cap : ProtocolErrors
  invalid_liquidation_protocol_fee invalid_emode_category : ProtocolErrors
  invalid_unbacked_mint_cap invalid_debt_ceiling : ProtocolErrors
  invalid_reserve_index acl_admin_cannot_be_zero : ProtocolErrors
  inconsistent_params_length zero_address_not_valid : ProtocolErrors
  invalid_expiration invalid_signature : ProtocolErrors
  operation_not_supported debt_ceiling_not_zero : ProtocolErrors
  asset_not_listed invalid_optimal_usage_ratio : ProtocolErrors
  invalid_optimal_stable_to_total_debt_ratio underlying_cannot_be_rescued : ProtocolErrors
  addresses_provider_already_added pool_addresses_do_not_match : ProtocolErrors
  stable_borrowing_enabled siloed_borrowing_violation : ProtocolErrors
  reserve_debt_not_zero flashloan_disabled : ProtocolErrors
  caller_must_be_lending_gauge parameter_address_not_zero : ProtocolErrors
  lending_gauge_percentage_not_match invalid_phases_length : ProtocolErrors
  phases_not_defined must_be_non_negative : ProtocolErrors
  safecast_uint128_overflow ownable_only_owner : ProtocolErrors
  erc20_transfer_amount_exceeds_balance invalid_from_balance_after_transfer : ProtocolErrors
  invalid_to_balance_after_transfer invalid_hf : ProtocolErrors

unfoldable pub text : ProtocolErrors → String
text caller_not_pool_admin = "1"
text caller_not_emergency_admin = "2"
text caller_not_pool_or_emergency_admin = "3"
text caller_not_risk_or_pool_admin = "4"
text caller_not_asset_listing_or_pool_admin = "5"
text caller_not_bridge = "6"
text addresses_provider_not_registered = "7"
text invalid_addresses_provider_id = "8"
text not_contract = "9"
text caller_not_pool_configurator = "10"
text caller_not_htoken = "11"
text invalid_addresses_provider = "12"
text invalid_flashloan_executor_return = "13"
text reserve_already_added = "14"
text no_more_reserves_allowed = "15"
text emode_category_reserved = "16"
text invalid_emode_category_assignment = "17"
text reserve_liquidity_not_zero = "18"
text flashloan_premium_invalid = "19"
text invalid_reserve_params = "20"
text invalid_emode_category_params = "21"
text bridge_protocol_fee_invalid = "22"
text caller_must_be_pool = "23"
text invalid_mint_amount = "24"
text invalid_burn_amount = "25"
text invalid_amount = "26"
text reserve_inactive = "27"
text reserve_frozen = "28"
text reserve_paused = "29"
text borrowing_not_enabled = "30"
text stable_borrowing_not_enabled = "31"
text not_enough_available_user_balance = "32"
text invalid_interest_rate_mode_selected = "33"
text collateral_balance_is_zero = "34"
text health_factor_lower_than_liquidation_threshold = "35"
text collateral_cannot_cover_new_borrow = "36"
text collateral_same_as_borrowing_currency = "37"
text amount_bigger_than_max_loan_size_stable = "38"
text no_debt_of_selected_type = "39"
text no_explicit_amount_to_repay_on_behalf = "40"
text no_outstanding_stable_debt = "41"
text no_outstanding_variable_debt = "42"
text underlying_balance_zero = "43"
text interest_rate_rebalance_conditions_not_met = "44"
text health_factor_not_below_threshold = "45"
text collateral_cannot_be_liquidated = "46"
text specified_currency_not_borrowed_by_user = "47"
text inconsistent_flashloan_params = "49"
text borrow_cap_exceeded = "50"
text supply_cap_exceeded = "51"
text unbacked_mint_cap_exceeded = "52"
text debt_ceiling_exceeded = "53"
text underlying_claimable_rights_not_zero = "54"
text stable_debt_not_zero = "55"
text variable_debt_supply_not_zero = "56"
text ltv_validation_failed = "57"
text inconsistent_emode_category = "58"
text price_oracle_sentinel_check_failed = "59"
text asset_not_borrowable_in_isolation = "60"
text reserve_already_initialized = "61"
text user_in_isolation_mode = "62"
text invalid_ltv = "63"
text invalid_liq_threshold = "64"
text invalid_liq_bonus = "65"
text invalid_decimals = "66"
text invalid_reserve_factor = "67"
text invalid_borrow_cap = "68"
text invalid_supply_cap = "69"
text invalid_liquidation_protocol_fee = "70"
text invalid_emode_category = "71"
text invalid_unbacked_mint_cap = "72"
text invalid_debt_ceiling = "73"
text invalid_reserve_index = "74"
text acl_admin_cannot_be_zero = "75"
text inconsistent_params_length = "76"
text zero_address_not_valid = "77"
text invalid_expiration = "78"
text invalid_signature = "79"
text operation_not_supported = "80"
text debt_ceiling_not_zero = "81"
text asset_not_listed = "82"
text invalid_optimal_usage_ratio = "83"
text invalid_optimal_stable_to_total_debt_ratio = "84"
text underlying_cannot_be_rescued = "85"
text addresses_provider_already_added = "86"
text pool_addresses_do_not_match = "87"
text stable_borrowing_enabled = "88"
text siloed_borrowing_violation = "89"
text reserve_debt_not_zero = "90"
text flashloan_disabled = "91"
text caller_must_be_lending_gauge = "94"
text parameter_address_not_zero = "95"
text lending_gauge_percentage_not_match = "96"
text invalid_phases_length = "97"
text phases_not_defined = "98"
text must_be_non_negative = "99"
text safecast_uint128_overflow = "SafeCast: value doesn't fit in 128 bits"
text ownable_only_owner = "Ownable: caller is not the owner"
text erc20_transfer_amount_exceeds_balance = "ERC20: transfer amount exceeds balance"
text invalid_from_balance_after_transfer = "Invalid from balance after transfer"
text invalid_to_balance_after_transfer = "Invalid from balance after transfer"
text invalid_hf = "Invalid health factor"
