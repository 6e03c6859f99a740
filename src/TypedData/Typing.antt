-- ===== src/TypedData/Typing.antt =====
-- helpers/contracts-helpers.ts: the parameters in the typed data that is signed.
use Prim.Native.String.{String}
use lend_core.Prelude.{ℕ, ◌≡◌, ap}
use lend_core.TypedData.{TypedData, Domain, build_permit_params, build_delegation_with_sig_params}

-- The typed data of a permit determines everything that is permitted: the chain, the token with
-- its revision and its name, the owner, the spender, the nonce, the deadline and the value.
pub permit_determined :
    (c c' n n' : ℕ) (t t' r r' m m' o o' s s' d d' v v' : String)
    → build_permit_params c t r m o s n d v ≡ build_permit_params c' t' r' m' o' s' n' d' v'
    → (c ≡ c')
      × (t ≡ t')
      × (r ≡ r')
      × (m ≡ m')
      × (o ≡ o')
      × (s ≡ s')
      × (n ≡ n')
      × (d ≡ d')
      × (v ≡ v')
unfolding build_permit_params
permit_determined c c' n n' t t' r r' m m' o o' s s' d d' v v' h =
    let dom = ap (λ (x : TypedData). x.domain) h in
    let msg = ap (λ (x : TypedData). x.message) h in
    (
      ap (λ (x : Domain). x.chain_id) dom,
      ap (λ (x : Domain). x.verifying_contract) dom,
      ap (λ (x : Domain). x.version) dom,
      ap (λ (x : Domain). x.name) dom,
      cc,
      cc,
      cc,
      cc,
      cc,
    )

-- The typed data of a delegation determines everything that is delegated: the chain, the token with
-- its revision and its name, the delegatee, the nonce, the deadline and the value.
pub delegation_determined :
    (c c' n n' : ℕ) (t t' r r' m m' s s' d d' v v' : String)
    → build_delegation_with_sig_params c t r m s n d v
      ≡ build_delegation_with_sig_params c' t' r' m' s' n' d' v'
    → (c ≡ c') × (t ≡ t') × (r ≡ r') × (m ≡ m') × (s ≡ s') × (n ≡ n') × (d ≡ d') × (v ≡ v')
unfolding build_delegation_with_sig_params
delegation_determined c c' n n' t t' r r' m m' s s' d d' v v' h =
    let dom = ap (λ (x : TypedData). x.domain) h in
    let msg = ap (λ (x : TypedData). x.message) h in
    (
      ap (λ (x : Domain). x.chain_id) dom,
      ap (λ (x : Domain). x.verifying_contract) dom,
      ap (λ (x : Domain). x.version) dom,
      ap (λ (x : Domain). x.name) dom,
      cc,
      cc,
      cc,
      cc,
    )
