-- ===== src/TypedData.antt =====
-- helpers/contracts-helpers.ts: the data that the owner of a token signs (EIP-712), for a permit
-- and for the delegation of a borrowing right.
pub mod Typing
use Prim.Native.String.{String}
use lend_core.Prelude.{ℕ, List, [], ◌∷◌}

pub record TypedField : Type 0 where
  pub name : String
  pub type : String

pub record Domain : Type 0 where
  pub name : String
  pub version : String
  pub chain_id : ℕ
  pub verifying_contract : String

-- A value of a message: a text, or a number of JavaScript
pub data FieldValue : Type 0 where
  text_value : String → FieldValue
  number_value : ℕ → FieldValue

-- `types` and `message` are objects: their keys with the values, in the order of the source.
pub record TypedData : Type 0 where
  pub types : List (String × List TypedField)
  pub primary_type : String
  pub domain : Domain
  pub message : List (String × FieldValue)

abbrev pub typed_field : String → String → TypedField
typed_field name type = record { name = name; type = type }

abbrev pub domain_fields : List TypedField
domain_fields =
    typed_field "name" "string"
    ∷ typed_field "version" "string"
    ∷ typed_field "chainId" "uint256"
    ∷ typed_field "verifyingContract" "address"
    ∷ []

module _ (chain_id : ℕ) (token revision token_name : String) where
  abbrev token_domain : Domain
  token_domain = record {
    name = token_name;
    version = revision;
    chain_id = chain_id;
    verifying_contract = token;
  }

  unfoldable pub build_permit_params : String → String → ℕ → String → String → TypedData
  build_permit_params owner spender nonce deadline value = record {
    types =
        ("EIP712Domain", domain_fields)
        ∷ (
          "Permit",
          typed_field "owner" "address"
              ∷ typed_field "spender" "address"
              ∷ typed_field "value" "uint256"
              ∷ typed_field "nonce" "uint256"
              ∷ typed_field "deadline" "uint256"
              ∷ [],
        )
        ∷ [];
    primary_type = "Permit";
    domain = token_domain;
    message =
        ("owner", text_value owner)
        ∷ ("spender", text_value spender)
        ∷ ("value", text_value value)
        ∷ ("nonce", number_value nonce)
        ∷ ("deadline", text_value deadline)
        ∷ [];
  }

  unfoldable pub build_delegation_with_sig_params : String → ℕ → String → String → TypedData
  build_delegation_with_sig_params delegatee nonce deadline value = record {
    types =
        ("EIP712Domain", domain_fields)
        ∷ (
          "DelegationWithSig",
          typed_field "delegatee" "address"
              ∷ typed_field "value" "uint256"
              ∷ typed_field "nonce" "uint256"
              ∷ typed_field "deadline" "uint256"
              ∷ [],
        )
        ∷ [];
    primary_type = "DelegationWithSig";
    domain = token_domain;
    message =
        ("delegatee", text_value delegatee)
        ∷ ("value", text_value value)
        ∷ ("nonce", number_value nonce)
        ∷ ("deadline", text_value deadline)
        ∷ [];
  }
