-- ===== src/Tests/Setup.antt =====
-- The theorems about the set-up of tests and networks at concrete inputs.
use Prim.Native.String.{String}
use lend_core.BigNumber.{integers}
use lend_core.ForkConfig.{
  EthereumNetwork, block_to_fork, build_fork_config, network_of, networks_rpc_url,
}
use lend_core.ForkConfig.Choice.{fork_choice}
use lend_core.Prelude.{arith, none, refl, some, ◌≡◌}
use lend_core.Tests.Data.{environment, first_nonce, local_chain}
use lend_core.TypedData.Typing.{permit_determined, delegation_determined}

abbrev token_address : String
token_address = "0x01"

abbrev first_revision : String
first_revision = "1"

abbrev token_name : String
token_name = "hDAI"

abbrev owner_address : String
owner_address = "0xa1"

abbrev spender_address : String
spender_address = "0xb2"

abbrev last_second : String
last_second = "100"

abbrev five_units : String
five_units = "5"

permit_determined_example :
    (local_chain ≡ local_chain)
    × (token_address ≡ token_address)
    × (first_revision ≡ first_revision)
    × (token_name ≡ token_name)
    × (owner_address ≡ owner_address)
    × (spender_address ≡ spender_address)
    × (first_nonce ≡ first_nonce)
    × (last_second ≡ last_second)
    × (five_units ≡ five_units)
permit_determined_example =
    permit_determined local_chain local_chain first_nonce first_nonce token_address token_address
      first_revision first_revision token_name token_name owner_address owner_address
      spender_address spender_address last_second last_second five_units five_units refl

delegation_determined_example :
    (local_chain ≡ local_chain)
    × (token_address ≡ token_address)
    × (first_revision ≡ first_revision)
    × (token_name ≡ token_name)
    × (spender_address ≡ spender_address)
    × (first_nonce ≡ first_nonce)
    × (last_second ≡ last_second)
    × (five_units ≡ five_units)
delegation_determined_example =
    delegation_determined local_chain local_chain first_nonce first_nonce token_address
      token_address first_revision first_revision token_name token_name spender_address
      spender_address last_second last_second five_units five_units refl

fork_choice_example :
    (build_fork_config (record environment { fork_block_number = 17000000 })
      ≡ some (record {
        url = some (networks_rpc_url environment EthereumNetwork.main);
        block_number = some 17000000;
      }))
    × (build_fork_config (record environment { fork_block_number = 0 })
        ≡ some (record {
          url = some (networks_rpc_url environment EthereumNetwork.main);
          block_number = block_to_fork EthereumNetwork.main;
        }))
    × (build_fork_config (record environment { fork = "" }) ≡ none)
unfolding network_of
fork_choice_example = fork_choice environment EthereumNetwork.main 17000000 refl (omega arith)
