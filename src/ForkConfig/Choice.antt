-- ===== src/ForkConfig/Choice.antt =====
-- Which fork the configuration chooses.
use Prim.Native.String.{String}
use package.text.Mathlib.Text.{◌==◌ as str_eq}
use package.text.Mathlib.TextEquality.{eq_iff}
use lend_core.Prelude.{Bool-cases, inl, inr, ℕ, ◌≡◌, refl, ◌<◌, none, some, false, pos→==}
use lend_core.ForkConfig.{
  Environment, EthereumNetwork, network_of, networks_rpc_url, block_to_fork, chosen_block,
  build_fork_config,
}

no_network : network_of "" ≡ none
unfolding network_of
no_network = refl

-- The name of a network is not empty.
network-named : (s : String) (n : EthereumNetwork) → network_of s ≡ some n → str_eq s "" ≡ false
network-named s n e = elim (Bool-cases (str_eq s "")) [
  | inl empty ↦
      let same : s ≡ "" = (eq_iff s "").0 empty in
      let found : network_of "" ≡ some n = rw⁻¹ same e in absurd (cc no_network)
  | inr named ↦ named
]

-- With a network of the tables to fork, the configuration has that network's address, and an
-- explicit block number wins over the table's; without one the table's number is taken, or none.
-- Without a name to fork there is no configuration.
pub fork_choice :
    (env : Environment) (n : EthereumNetwork) (block : ℕ)
    → network_of env.fork ≡ some n
    → 0 < block
    → (build_fork_config (record env { fork_block_number = block })
        ≡ some (record { url = some (networks_rpc_url env n); block_number = some block }))
      × (build_fork_config (record env { fork_block_number = 0 })
          ≡ some (record { url = some (networks_rpc_url env n); block_number = block_to_fork n }))
      × (build_fork_config (record env { fork = "" }) ≡ none)
unfolding build_fork_config chosen_block networks_rpc_url
fork_choice env n block e p =
    let named = network-named env.fork n e in (rw (named, e, pos→== block p), rw (named, e), refl)
