-- ===== src/Chain/Snapshots.antt =====
-- The data that the tests read are snapshots, for every BigNumber that keeps to its documentation.
use Prim.Native.String.{String}
use lend_core.Prelude.{◌≡◌, refl, ◌+◌, Option}
use lend_core.Prelude.Int.{pos}
use lend_core.Prelude.Result.{ok}
use lend_core.BigNumber.{BigNumberApi, Documented, Documented-integers}
use lend_core.Reserve.Consistent.{IsConsistent}
use lend_core.Snapshot.{Snapshot, reserve_of, UserSnapshot, user_of}
use lend_core.Chain.{Chain}
use lend_core.Chain.Reading.{get_contracts_data}
use lend_core.Chain.Answers.{
  Answers, snapshot, user_snapshot, contracts_data-ok, snapshot-IsConsistent,
}

module _ ⦃big : BigNumberApi⦄ (doc : Documented big) where
  -- Where every view of the contracts answers, the tests read the data of a reserve, of a user and
  -- the time: the assertion on the usage ratios never fails. The data is that of two snapshots,
  -- so that no field is missing and no number is negative; the reserve is consistent, and its
  -- liquidity is the hToken's balance and what is not backed.
  pub get_contracts_data-snapshots :
      (chain : Chain) (reserve user : String) (sender : Option String) (s : chain.State)
      (a : Answers chain reserve user sender s)
      → (r : Snapshot) × (u : UserSnapshot) × (get_contracts_data chain reserve user sender s
          ≡ ok (record {
            reserve_data = reserve_of r;
            user_data = user_of u;
            timestamp = pos a.timestamp;
          }))
        × IsConsistent (reserve_of r)
        × (r.available_liquidity ≡ a.available_liquidity)
        × (r.total_liquidity ≡ a.available_liquidity + r.unbacked)
        × (u.wallet_balance ≡ a.wallet_balance)
  get_contracts_data-snapshots chain reserve user sender s a = rw (Documented-integers big doc) (
    snapshot chain reserve user sender s a,
    user_snapshot chain reserve user sender s a,
    contracts_data-ok chain reserve user sender s a,
    snapshot-IsConsistent chain reserve user sender s a,
    refl,
    refl,
    refl,
  )
