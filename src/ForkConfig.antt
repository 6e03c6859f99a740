-- ===== src/ForkConfig.antt =====
-- helper-hardhat-config.ts: the network that a local node forks. The environment variables that the
-- file reads when it is loaded are a record.
pub mod Choice
use Prim.Native.String.{String, ◌++◌}
use package.text.Mathlib.Text.{◌==◌ as str_eq}
use lend_core.Prelude.{ℕ, ◌==◌, Option, none, some, Option-cases, if◌then◌else◌}

-- `eEthereumNetwork` of helpers/types.ts
pub data EthereumNetwork : Type 0 where
  kovan : EthereumNetwork
  ropsten : EthereumNetwork
  main : EthereumNetwork
  coverage : EthereumNetwork
  hardhat : EthereumNetwork
  tenderly_main : EthereumNetwork

-- The values of the environment, each empty where it is not set. `fork_block_number` is the number
-- that `parseInt` reads, and 0 where it reads none.
pub record Environment : Type 0 where
  pub infura_key : String
  pub alchemy_key : String
  pub tenderly_fork_id : String
  pub fork : String
  pub fork_block_number : ℕ

-- The network whose text is used as a key, if it is one that both tables have.
unfoldable pub network_of : String → Option EthereumNetwork
network_of s =
    if str_eq s "kovan"
    then some EthereumNetwork.kovan
    else if str_eq s "ropsten"
    then some EthereumNetwork.ropsten
    else if str_eq s "main"
    then some EthereumNetwork.main
    else if str_eq s "coverage"
    then some EthereumNetwork.coverage
    else if str_eq s "hardhat"
    then some EthereumNetwork.hardhat
    else if str_eq s "tenderlyMain"
    then some EthereumNetwork.tenderly_main
    else none

-- `a ? b : c` on a text
abbrev pub truthy : {A : Type 0} → String → A → A → A
truthy s a b = if str_eq s "" then b else a

unfoldable pub networks_rpc_url : Environment → EthereumNetwork → String
networks_rpc_url env EthereumNetwork.kovan =
    truthy env.alchemy_key ("https://eth-kovan.alchemyapi.io/v2/" ++ env.alchemy_key)
      ("https://kovan.infura.io/v3/" ++ env.infura_key)
networks_rpc_url env EthereumNetwork.ropsten =
    truthy env.alchemy_key ("https://eth-ropsten.alchemyapi.io/v2/" ++ env.alchemy_key)
      ("https://ropsten.infura.io/v3/" ++ env.infura_key)
networks_rpc_url env EthereumNetwork.main =
    truthy env.alchemy_key ("https://eth-mainnet.alchemyapi.io/v2/" ++ env.alchemy_key)
      ("https://mainnet.infura.io/v3/" ++ env.infura_key)
networks_rpc_url env EthereumNetwork.coverage = "http://localhost:8555"
networks_rpc_url env EthereumNetwork.hardhat = "http://localhost:8545"
networks_rpc_url env EthereumNetwork.tenderly_main =
    "https://rpc.tenderly.co/fork/" ++ env.tenderly_fork_id

unfoldable pub block_to_fork : EthereumNetwork → Option ℕ
block_to_fork EthereumNetwork.main = some 12406069
block_to_fork EthereumNetwork.kovan = none
block_to_fork EthereumNetwork.ropsten = none
block_to_fork EthereumNetwork.coverage = none
block_to_fork EthereumNetwork.hardhat = none
block_to_fork EthereumNetwork.tenderly_main = some 12406069

-- `HardhatNetworkForkingUserConfig`: the two fields that are assigned, `none` for `undefined`
pub record ForkMode : Type 0 where
  pub url : Option String
  pub block_number : Option ℕ

-- A property of a table at a key that it may not have.
abbrev pub at_key {ℓ κ} : {A : Type ℓ} {B : Type κ} → Option A → (A → Option B) → Option B
at_key none f = none
at_key (some a) f = f a

-- `FORK_BLOCK_NUMBER || BLOCK_TO_FORK[FORK]`
unfoldable pub chosen_block : Environment → Option ℕ
chosen_block env =
    if env.fork_block_number == 0
    then at_key (network_of env.fork) block_to_fork
    else some env.fork_block_number

unfoldable pub build_fork_config : Environment → Option ForkMode
unfolding chosen_block
build_fork_config env =
    truthy env.fork
      (some (record {
        url = at_key (network_of env.fork) (λ n. some (networks_rpc_url env n));
        block_number = chosen_block env;
      }))
      none
