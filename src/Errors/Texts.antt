-- ===== src/Errors/Texts.antt =====
-- The texts of the errors of the protocol tell the errors apart, with one exception.
use Prim.Native.String.{String}
use package.text.Mathlib.Text.{◌==◌ as str_eq}
use lend_core.Prelude.{◌≡◌, refl, ap, sym, ◌∙◌, Option, none, some, List, [], ◌∷◌, if◌then◌else◌}
use lend_core.Errors.{ProtocolErrors, text}

-- The two errors of a balance after a transfer, as one.
abbrev pub one_balance_error : ProtocolErrors → ProtocolErrors
one_balance_error ProtocolErrors.invalid_to_balance_after_transfer =
    ProtocolErrors.invalid_from_balance_after_transfer
one_balance_error ProtocolErrors.caller_not_pool_admin = ProtocolErrors.caller_not_pool_admin
one_balance_error ProtocolErrors.caller_not_emergency_admin =
    ProtocolErrors.caller_not_emergency_admin
one_balance_error ProtocolErrors.caller_not_pool_or_emergency_admin =
    ProtocolErrors.caller_not_pool_or_emergency_admin
one_balance_error ProtocolErrors.caller_not_risk_or_pool_admin =
    ProtocolErrors.caller_not_risk_or_pool_admin
one_balance_error ProtocolErrors.caller_not_asset_listing_or_pool_admin =
    ProtocolErrors.caller_not_asset_listing_or_pool_admin
one_balance_error ProtocolErrors.caller_not_bridge = ProtocolErrors.caller_not_bridge
one_balance_error ProtocolErrors.addresses_provider_not_registered =
    ProtocolErrors.addresses_provider_not_registered
one_balance_error ProtocolErrors.invalid_addresses_provider_id =
    ProtocolErrors.invalid_addresses_provider_id
one_balance_error ProtocolErrors.not_contract = ProtocolErrors.not_contract
one_balance_error ProtocolErrors.caller_not_pool_configurator =
    ProtocolErrors.caller_not_pool_configurator
one_balance_error ProtocolErrors.caller_not_htoken = ProtocolErrors.caller_not_htoken
one_balance_error ProtocolErrors.invalid_addresses_provider =
    ProtocolErrors.invalid_addresses_provider
one_balance_error ProtocolErrors.invalid_flashloan_executor_return =
    ProtocolErrors.invalid_flashloan_executor_return
one_balance_error ProtocolErrors.reserve_already_added = ProtocolErrors.reserve_already_added
one_balance_error ProtocolErrors.no_more_reserves_allowed = ProtocolErrors.no_more_reserves_allowed
one_balance_error ProtocolErrors.emode_category_reserved = ProtocolErrors.emode_category_reserved
one_balance_error ProtocolErrors.invalid_emode_category_assignment =
    ProtocolErrors.invalid_emode_category_assignment
one_balance_error ProtocolErrors.reserve_liquidity_not_zero =
    ProtocolErrors.reserve_liquidity_not_zero
one_balance_error ProtocolErrors.flashloan_premium_invalid =
    ProtocolErrors.flashloan_premium_invalid
one_balance_error ProtocolErrors.invalid_reserve_params = ProtocolErrors.invalid_reserve_params
one_balance_error ProtocolErrors.invalid_emode_category_params =
    ProtocolErrors.invalid_emode_category_params
one_balance_error ProtocolErrors.bridge_protocol_fee_invalid =
    ProtocolErrors.bridge_protocol_fee_invalid
one_balance_error ProtocolErrors.caller_must_be_pool = ProtocolErrors.caller_must_be_pool
one_balance_error ProtocolErrors.invalid_mint_amount = ProtocolErrors.invalid_mint_amount
one_balance_error ProtocolErrors.invalid_burn_amount = ProtocolErrors.invalid_burn_amount
one_balance_error ProtocolErrors.invalid_amount = ProtocolErrors.invalid_amount
one_balance_error ProtocolErrors.reserve_inactive = ProtocolErrors.reserve_inactive
one_balance_error ProtocolErrors.reserve_frozen = ProtocolErrors.reserve_frozen
one_balance_error ProtocolErrors.reserve_paused = ProtocolErrors.reserve_paused
one_balance_error ProtocolErrors.borrowing_not_enabled = ProtocolErrors.borrowing_not_enabled
one_balance_error ProtocolErrors.stable_borrowing_not_enabled =
    ProtocolErrors.stable_borrowing_not_enabled
one_balance_error ProtocolErrors.not_enough_available_user_balance =
    ProtocolErrors.not_enough_available_user_balance
one_balance_error ProtocolErrors.invalid_interest_rate_mode_selected =
    ProtocolErrors.invalid_interest_rate_mode_selected
one_balance_error ProtocolErrors.collateral_balance_is_zero =
    ProtocolErrors.collateral_balance_is_zero
one_balance_error ProtocolErrors.health_factor_lower_than_liquidation_threshold =
    ProtocolErrors.health_factor_lower_than_liquidation_threshold
one_balance_error ProtocolErrors.collateral_cannot_cover_new_borrow =
    ProtocolErrors.collateral_cannot_cover_new_borrow
one_balance_error ProtocolErrors.collateral_same_as_borrowing_currency =
    ProtocolErrors.collateral_same_as_borrowing_currency
one_balance_error ProtocolErrors.amount_bigger_than_max_loan_size_stable =
    ProtocolErrors.amount_bigger_than_max_loan_size_stable
one_balance_error ProtocolErrors.no_debt_of_selected_type = ProtocolErrors.no_debt_of_selected_type
one_balance_error ProtocolErrors.no_explicit_amount_to_repay_on_behalf =
    ProtocolErrors.no_explicit_amount_to_repay_on_behalf
one_balance_error ProtocolErrors.no_outstanding_stable_debt =
    ProtocolErrors.no_outstanding_stable_debt
one_balance_error ProtocolErrors.no_outstanding_variable_debt =
    ProtocolErrors.no_outstanding_variable_debt
one_balance_error ProtocolErrors.underlying_balance_zero = ProtocolErrors.underlying_balance_zero
one_balance_error ProtocolErrors.interest_rate_rebalance_conditions_not_met =
    ProtocolErrors.interest_rate_rebalance_conditions_not_met
one_balance_error ProtocolErrors.health_factor_not_below_threshold =
    ProtocolErrors.health_factor_not_below_threshold
one_balance_error ProtocolErrors.collateral_cannot_be_liquidated =
    ProtocolErrors.collateral_cannot_be_liquidated
one_balance_error ProtocolErrors.specified_currency_not_borrowed_by_user =
    ProtocolErrors.specified_currency_not_borrowed_by_user
one_balance_error ProtocolErrors.inconsistent_flashloan_params =
    ProtocolErrors.inconsistent_flashloan_params
one_balance_error ProtocolErrors.borrow_cap_exceeded = ProtocolErrors.borrow_cap_exceeded
one_balance_error ProtocolErrors.supply_cap_exceeded = ProtocolErrors.supply_cap_exceeded
one_balance_error ProtocolErrors.unbacked_mint_cap_exceeded =
    ProtocolErrors.unbacked_mint_cap_exceeded
one_balance_error ProtocolErrors.debt_ceiling_exceeded = ProtocolErrors.debt_ceiling_exceeded
one_balance_error ProtocolErrors.underlying_claimable_rights_not_zero =
    ProtocolErrors.underlying_claimable_rights_not_zero
one_balance_error ProtocolErrors.stable_debt_not_zero = ProtocolErrors.stable_debt_not_zero
one_balance_error ProtocolErrors.variable_debt_supply_not_zero =
    ProtocolErrors.variable_debt_supply_not_zero
one_balance_error ProtocolErrors.ltv_validation_failed = ProtocolErrors.ltv_validation_failed
one_balance_error ProtocolErrors.inconsistent_emode_category =
    ProtocolErrors.inconsistent_emode_category
one_balance_error ProtocolErrors.price_oracle_sentinel_check_failed =
    ProtocolErrors.price_oracle_sentinel_check_failed
one_balance_error ProtocolErrors.asset_not_borrowable_in_isolation =
    ProtocolErrors.asset_not_borrowable_in_isolation
one_balance_error ProtocolErrors.reserve_already_initialized =
    ProtocolErrors.reserve_already_initialized
one_balance_error ProtocolErrors.user_in_isolation_mode = ProtocolErrors.user_in_isolation_mode
one_balance_error ProtocolErrors.invalid_ltv = ProtocolErrors.invalid_ltv
one_balance_error ProtocolErrors.invalid_liq_threshold = ProtocolErrors.invalid_liq_threshold
one_balance_error ProtocolErrors.invalid_liq_bonus = ProtocolErrors.invalid_liq_bonus
one_balance_error ProtocolErrors.invalid_decimals = ProtocolErrors.invalid_decimals
one_balance_error ProtocolErrors.invalid_reserve_factor = ProtocolErrors.invalid_reserve_factor
one_balance_error ProtocolErrors.invalid_borrow_cap = ProtocolErrors.invalid_borrow_cap
one_balance_error ProtocolErrors.invalid_supply_cap = ProtocolErrors.invalid_supply_cap
one_balance_error ProtocolErrors.invalid_liquidation_protocol_fee =
    ProtocolErrors.invalid_liquidation_protocol_fee
one_balance_error ProtocolErrors.invalid_emode_category = ProtocolErrors.invalid_emode_category
one_balance_error ProtocolErrors.invalid_unbacked_mint_cap =
    ProtocolErrors.invalid_unbacked_mint_cap
one_balance_error ProtocolErrors.invalid_debt_ceiling = ProtocolErrors.invalid_debt_ceiling
one_balance_error ProtocolErrors.invalid_reserve_index = ProtocolErrors.invalid_reserve_index
one_balance_error ProtocolErrors.acl_admin_cannot_be_zero = ProtocolErrors.acl_admin_cannot_be_zero
one_balance_error ProtocolErrors.inconsistent_params_length =
    ProtocolErrors.inconsistent_params_length
one_balance_error ProtocolErrors.zero_address_not_valid = ProtocolErrors.zero_address_not_valid
one_balance_error ProtocolErrors.invalid_expiration = ProtocolErrors.invalid_expiration
one_balance_error ProtocolErrors.invalid_signature = ProtocolErrors.invalid_signature
one_balance_error ProtocolErrors.operation_not_supported = ProtocolErrors.operation_not_supported
one_balance_error ProtocolErrors.debt_ceiling_not_zero = ProtocolErrors.debt_ceiling_not_zero
one_balance_error ProtocolErrors.asset_not_listed = ProtocolErrors.asset_not_listed
one_balance_error ProtocolErrors.invalid_optimal_usage_ratio =
    ProtocolErrors.invalid_optimal_usage_ratio
one_balance_error ProtocolErrors.invalid_optimal_stable_to_total_debt_ratio =
    ProtocolErrors.invalid_optimal_stable_to_total_debt_ratio
one_balance_error ProtocolErrors.underlying_cannot_be_rescued =
    ProtocolErrors.underlying_cannot_be_rescued
one_balance_error ProtocolErrors.addresses_provider_already_added =
    ProtocolErrors.addresses_provider_already_added
one_balance_error ProtocolErrors.pool_addresses_do_not_match =
    ProtocolErrors.pool_addresses_do_not_match
one_balance_error ProtocolErrors.stable_borrowing_enabled = ProtocolErrors.stable_borrowing_enabled
one_balance_error ProtocolErrors.siloed_borrowing_violation =
    ProtocolErrors.siloed_borrowing_violation
one_balance_error ProtocolErrors.reserve_debt_not_zero = ProtocolErrors.reserve_debt_not_zero
one_balance_error ProtocolErrors.flashloan_disabled = ProtocolErrors.flashloan_disabled
one_balance_error ProtocolErrors.caller_must_be_lending_gauge =
    ProtocolErrors.caller_must_be_lending_gauge
one_balance_error ProtocolErrors.parameter_address_not_zero =
    ProtocolErrors.parameter_address_not_zero
one_balance_error ProtocolErrors.lending_gauge_percentage_not_match =
    ProtocolErrors.lending_gauge_percentage_not_match
one_balance_error ProtocolErrors.invalid_phases_length = ProtocolErrors.invalid_phases_length
one_balance_error ProtocolErrors.phases_not_defined = ProtocolErrors.phases_not_defined
one_balance_error ProtocolErrors.must_be_non_negative = ProtocolErrors.must_be_non_negative
one_balance_error ProtocolErrors.safecast_uint128_overflow =
    ProtocolErrors.safecast_uint128_overflow
one_balance_error ProtocolErrors.ownable_only_owner = ProtocolErrors.ownable_only_owner
one_balance_error ProtocolErrors.erc20_transfer_amount_exceeds_balance =
    ProtocolErrors.erc20_transfer_amount_exceeds_balance
one_balance_error ProtocolErrors.invalid_from_balance_after_transfer =
    ProtocolErrors.invalid_from_balance_after_transfer
one_balance_error ProtocolErrors.invalid_hf = ProtocolErrors.invalid_hf

abbrev all_errors : List ProtocolErrors
all_errors =
    ProtocolErrors.caller_not_pool_admin ∷ ProtocolErrors.caller_not_emergency_admin
    ∷ ProtocolErrors.caller_not_pool_or_emergency_admin
    ∷ ProtocolErrors.caller_not_risk_or_pool_admin
    ∷ ProtocolErrors.caller_not_asset_listing_or_pool_admin ∷ ProtocolErrors.caller_not_bridge
    ∷ ProtocolErrors.addresses_provider_not_registered
    ∷ ProtocolErrors.invalid_addresses_provider_id ∷ ProtocolErrors.not_contract
    ∷ ProtocolErrors.caller_not_pool_configurator ∷ ProtocolErrors.caller_not_htoken
    ∷ ProtocolErrors.invalid_addresses_provider ∷ ProtocolErrors.invalid_flashloan_executor_return
    ∷ ProtocolErrors.reserve_already_added ∷ ProtocolErrors.no_more_reserves_allowed
    ∷ ProtocolErrors.emode_category_reserved ∷ ProtocolErrors.invalid_emode_category_assignment
    ∷ ProtocolErrors.reserve_liquidity_not_zero ∷ ProtocolErrors.flashloan_premium_invalid
    ∷ ProtocolErrors.invalid_reserve_params ∷ ProtocolErrors.invalid_emode_category_params
    ∷ ProtocolErrors.bridge_protocol_fee_invalid ∷ ProtocolErrors.caller_must_be_pool
    ∷ ProtocolErrors.invalid_mint_amount ∷ ProtocolErrors.invalid_burn_amount
    ∷ ProtocolErrors.invalid_amount ∷ ProtocolErrors.reserve_inactive
    ∷ ProtocolErrors.reserve_frozen ∷ ProtocolErrors.reserve_paused
    ∷ ProtocolErrors.borrowing_not_enabled ∷ ProtocolErrors.stable_borrowing_not_enabled
    ∷ ProtocolErrors.not_enough_available_user_balance
    ∷ ProtocolErrors.invalid_interest_rate_mode_selected ∷ ProtocolErrors.collateral_balance_is_zero
    ∷ ProtocolErrors.health_factor_lower_than_liquidation_threshold
    ∷ ProtocolErrors.collateral_cannot_cover_new_borrow
    ∷ ProtocolErrors.collateral_same_as_borrowing_currency
    ∷ ProtocolErrors.amount_bigger_than_max_loan_size_stable
    ∷ ProtocolErrors.no_debt_of_selected_type ∷ ProtocolErrors.no_explicit_amount_to_repay_on_behalf
    ∷ ProtocolErrors.no_outstanding_stable_debt ∷ ProtocolErrors.no_outstanding_variable_debt
    ∷ ProtocolErrors.underlying_balance_zero
    ∷ ProtocolErrors.interest_rate_rebalance_conditions_not_met
    ∷ ProtocolErrors.health_factor_not_below_threshold
    ∷ ProtocolErrors.collateral_cannot_be_liquidated
    ∷ ProtocolErrors.specified_currency_not_borrowed_by_user
    ∷ ProtocolErrors.inconsistent_flashloan_params ∷ ProtocolErrors.borrow_cap_exceeded
    ∷ ProtocolErrors.supply_cap_exceeded ∷ ProtocolErrors.unbacked_mint_cap_exceeded
    ∷ ProtocolErrors.debt_ceiling_exceeded ∷ ProtocolErrors.underlying_claimable_rights_not_zero
    ∷ ProtocolErrors.stable_debt_not_zero ∷ ProtocolErrors.variable_debt_supply_not_zero
    ∷ ProtocolErrors.ltv_validation_failed ∷ ProtocolErrors.inconsistent_emode_category
    ∷ ProtocolErrors.price_oracle_sentinel_check_failed
    ∷ ProtocolErrors.asset_not_borrowable_in_isolation ∷ ProtocolErrors.reserve_already_initialized
    ∷ ProtocolErrors.user_in_isolation_mode ∷ ProtocolErrors.invalid_ltv
    ∷ ProtocolErrors.invalid_liq_threshold ∷ ProtocolErrors.invalid_liq_bonus
    ∷ ProtocolErrors.invalid_decimals ∷ ProtocolErrors.invalid_reserve_factor
    ∷ ProtocolErrors.invalid_borrow_cap ∷ ProtocolErrors.invalid_supply_cap
    ∷ ProtocolErrors.invalid_liquidation_protocol_fee ∷ ProtocolErrors.invalid_emode_category
    ∷ ProtocolErrors.invalid_unbacked_mint_cap ∷ ProtocolErrors.invalid_debt_ceiling
    ∷ ProtocolErrors.invalid_reserve_index ∷ ProtocolErrors.acl_admin_cannot_be_zero
    ∷ ProtocolErrors.inconsistent_params_length ∷ ProtocolErrors.zero_address_not_valid
    ∷ ProtocolErrors.invalid_expiration ∷ ProtocolErrors.invalid_signature
    ∷ ProtocolErrors.operation_not_supported ∷ ProtocolErrors.debt_ceiling_not_zero
    ∷ ProtocolErrors.asset_not_listed ∷ ProtocolErrors.invalid_optimal_usage_ratio
    ∷ ProtocolErrors.invalid_optimal_stable_to_total_debt_ratio
    ∷ ProtocolErrors.underlying_cannot_be_rescued ∷ ProtocolErrors.addresses_provider_already_added
    ∷ ProtocolErrors.pool_addresses_do_not_match ∷ ProtocolErrors.stable_borrowing_enabled
    ∷ ProtocolErrors.siloed_borrowing_violation ∷ ProtocolErrors.reserve_debt_not_zero
    ∷ ProtocolErrors.flashloan_disabled ∷ ProtocolErrors.caller_must_be_lending_gauge
    ∷ ProtocolErrors.parameter_address_not_zero ∷ ProtocolErrors.lending_gauge_percentage_not_match
    ∷ ProtocolErrors.invalid_phases_length ∷ ProtocolErrors.phases_not_defined
    ∷ ProtocolErrors.must_be_non_negative ∷ ProtocolErrors.safecast_uint128_overflow
    ∷ ProtocolErrors.ownable_only_owner ∷ ProtocolErrors.erc20_transfer_amount_exceeds_balance
    ∷ ProtocolErrors.invalid_from_balance_after_transfer
    ∷ ProtocolErrors.invalid_to_balance_after_transfer ∷ ProtocolErrors.invalid_hf ∷ []

abbrev first_with : String → List ProtocolErrors → Option ProtocolErrors
first_with s [] = none
first_with s (e ∷ es) = if str_eq s (text e) then some e else first_with s es

first_with-text : (e : ProtocolErrors) → first_with (text e) all_errors ≡ some (one_balance_error e)
unfolding text
first_with-text ProtocolErrors.caller_not_pool_admin = refl
first_with-text ProtocolErrors.caller_not_emergency_admin = refl
first_with-text ProtocolErrors.caller_not_pool_or_emergency_admin = refl
first_with-text ProtocolErrors.caller_not_risk_or_pool_admin = refl
first_with-text ProtocolErrors.caller_not_asset_listing_or_pool_admin = refl
first_with-text ProtocolErrors.caller_not_bridge = refl
first_with-text ProtocolErrors.addresses_provider_not_registered = refl
first_with-text ProtocolErrors.invalid_addresses_provider_id = refl
first_with-text ProtocolErrors.not_contract = refl
first_with-text ProtocolErrors.caller_not_pool_configurator = refl
first_with-text ProtocolErrors.caller_not_htoken = refl
first_with-text ProtocolErrors.invalid_addresses_provider = refl
first_with-text ProtocolErrors.invalid_flashloan_executor_return = refl
first_with-text ProtocolErrors.reserve_already_added = refl
first_with-text ProtocolErrors.no_more_reserves_allowed = refl
first_with-text ProtocolErrors.emode_category_reserved = refl
first_with-text ProtocolErrors.invalid_emode_category_assignment = refl
first_with-text ProtocolErrors.reserve_liquidity_not_zero = refl
first_with-text ProtocolErrors.flashloan_premium_invalid = refl
first_with-text ProtocolErrors.invalid_reserve_params = refl
first_with-text ProtocolErrors.invalid_emode_category_params = refl
first_with-text ProtocolErrors.bridge_protocol_fee_invalid = refl
first_with-text ProtocolErrors.caller_must_be_pool = refl
first_with-text ProtocolErrors.invalid_mint_amount = refl
first_with-text ProtocolErrors.invalid_burn_amount = refl
first_with-text ProtocolErrors.invalid_amount = refl
first_with-text ProtocolErrors.reserve_inactive = refl
first_with-text ProtocolErrors.reserve_frozen = refl
first_with-text ProtocolErrors.reserve_paused = refl
first_with-text ProtocolErrors.borrowing_not_enabled = refl
first_with-text ProtocolErrors.stable_borrowing_not_enabled = refl
first_with-text ProtocolErrors.not_enough_available_user_balance = refl
first_with-text ProtocolErrors.invalid_interest_rate_mode_selected = refl
first_with-text ProtocolErrors.collateral_balance_is_zero = refl
first_with-text ProtocolErrors.health_factor_lower_than_liquidation_threshold = refl
first_with-text ProtocolErrors.collateral_cannot_cover_new_borrow = refl
first_with-text ProtocolErrors.collateral_same_as_borrowing_currency = refl
first_with-text ProtocolErrors.amount_bigger_than_max_loan_size_stable = refl
first_with-text ProtocolErrors.no_debt_of_selected_type = refl
first_with-text ProtocolErrors.no_explicit_amount_to_repay_on_behalf = refl
first_with-text ProtocolErrors.no_outstanding_stable_debt = refl
first_with-text ProtocolErrors.no_outstanding_variable_debt = refl
first_with-text ProtocolErrors.underlying_balance_zero = refl
first_with-text ProtocolErrors.interest_rate_rebalance_conditions_not_met = refl
first_with-text ProtocolErrors.health_factor_not_below_threshold = refl
first_with-text ProtocolErrors.collateral_cannot_be_liquidated = refl
first_with-text ProtocolErrors.specified_currency_not_borrowed_by_user = refl
first_with-text ProtocolErrors.inconsistent_flashloan_params = refl
first_with-text ProtocolErrors.borrow_cap_exceeded = refl
first_with-text ProtocolErrors.supply_cap_exceeded = refl
first_with-text ProtocolErrors.unbacked_mint_cap_exceeded = refl
first_with-text ProtocolErrors.debt_ceiling_exceeded = refl
first_with-text ProtocolErrors.underlying_claimable_rights_not_zero = refl
first_with-text ProtocolErrors.stable_debt_not_zero = refl
first_with-text ProtocolErrors.variable_debt_supply_not_zero = refl
first_with-text ProtocolErrors.ltv_validation_failed = refl
first_with-text ProtocolErrors.inconsistent_emode_category = refl
first_with-text ProtocolErrors.price_oracle_sentinel_check_failed = refl
first_with-text ProtocolErrors.asset_not_borrowable_in_isolation = refl
first_with-text ProtocolErrors.reserve_already_initialized = refl
first_with-text ProtocolErrors.user_in_isolation_mode = refl
first_with-text ProtocolErrors.invalid_ltv = refl
first_with-text ProtocolErrors.invalid_liq_threshold = refl
first_with-text ProtocolErrors.invalid_liq_bonus = refl
first_with-text ProtocolErrors.invalid_decimals = refl
first_with-text ProtocolErrors.invalid_reserve_factor = refl
first_with-text ProtocolErrors.invalid_borrow_cap = refl
first_with-text ProtocolErrors.invalid_supply_cap = refl
first_with-text ProtocolErrors.invalid_liquidation_protocol_fee = refl
first_with-text ProtocolErrors.invalid_emode_category = refl
first_with-text ProtocolErrors.invalid_unbacked_mint_cap = refl
first_with-text ProtocolErrors.invalid_debt_ceiling = refl
first_with-text ProtocolErrors.invalid_reserve_index = refl
first_with-text ProtocolErrors.acl_admin_cannot_be_zero = refl
first_with-text ProtocolErrors.inconsistent_params_length = refl
first_with-text ProtocolErrors.zero_address_not_valid = refl
first_with-text ProtocolErrors.invalid_expiration = refl
first_with-text ProtocolErrors.invalid_signature = refl
first_with-text ProtocolErrors.operation_not_supported = refl
first_with-text ProtocolErrors.debt_ceiling_not_zero = refl
first_with-text ProtocolErrors.asset_not_listed = refl
first_with-text ProtocolErrors.invalid_optimal_usage_ratio = refl
first_with-text ProtocolErrors.invalid_optimal_stable_to_total_debt_ratio = refl
first_with-text ProtocolErrors.underlying_cannot_be_rescued = refl
first_with-text ProtocolErrors.addresses_provider_already_added = refl
first_with-text ProtocolErrors.pool_addresses_do_not_match = refl
first_with-text ProtocolErrors.stable_borrowing_enabled = refl
first_with-text ProtocolErrors.siloed_borrowing_violation = refl
first_with-text ProtocolErrors.reserve_debt_not_zero = refl
first_with-text ProtocolErrors.flashloan_disabled = refl
first_with-text ProtocolErrors.caller_must_be_lending_gauge = refl
first_with-text ProtocolErrors.parameter_address_not_zero = refl
first_with-text ProtocolErrors.lending_gauge_percentage_not_match = refl
first_with-text ProtocolErrors.invalid_phases_length = refl
first_with-text ProtocolErrors.phases_not_defined = refl
first_with-text ProtocolErrors.must_be_non_negative = refl
first_with-text ProtocolErrors.safecast_uint128_overflow = refl
first_with-text ProtocolErrors.ownable_only_owner = refl
first_with-text ProtocolErrors.erc20_transfer_amount_exceeds_balance = refl
first_with-text ProtocolErrors.invalid_from_balance_after_transfer = refl
first_with-text ProtocolErrors.invalid_to_balance_after_transfer = refl
first_with-text ProtocolErrors.invalid_hf = refl

some_injective : (e e' : ProtocolErrors) → some e ≡ some e' → e ≡ e'
some_injective e e' h = cc

-- Two errors with the same text are the same, or both are errors of a balance after a transfer.
pub texts_tell_apart :
    (e e' : ProtocolErrors) → text e ≡ text e' → one_balance_error e ≡ one_balance_error e'
texts_tell_apart e e' h =
    some_injective _ _
      (sym (first_with-text e) ∙ ap (λ s. first_with s all_errors) h ∙ first_with-text e')
