-- ===== src/Actions/Steps.antt =====
-- The steps of the actions: which of them only read, and what the others have done.
use Prim.Native.String.{String}
use package.text.Mathlib.Text.{◌==◌ as str_eq}
use lend_core.Prelude.{◌≡◌, refl, Option, none, some, false, Bool-cases, inl, inr}
use lend_core.Prelude.Run.{
  Run, IsReader, bind-IsReader, view-IsReader, pure-IsReader, Establishes, follow, read-Establishes,
  last-Establishes, return,
}
use lend_core.BigNumber.{BigNumberApi, Documented}
use lend_core.Prelude.Result.{ok}
use lend_core.Types.{ReserveData, UserReserveData, empty_reserve, empty_user}
use lend_core.Comparison.Accepted.{IsClose, IsCloseUser}
use lend_core.Comparison.Tolerance.{expect_equal-IsClose}
use lend_core.Chain.{Call, Receipt, Outcome, mined, refused, unsent}
use lend_core.Actions.{
  Suite, submit, await_mined, expect_reverted, expect_reserve, expect_user,
  get_tx_cost_and_timestamp, value_to_send, amount_or_all, given, converted,
}

pub await_mined-Establishes {ℓ κ} :
    {State : Type 0} {A : Type ℓ} (P : A → State → Type κ) (outcome : Outcome)
    (rest : Receipt → Run State A) (s : State)
    → ((receipt : Receipt) → outcome ≡ mined receipt → Establishes P (rest receipt s))
    → Establishes P (follow rest (await_mined outcome s))
unfolding await_mined follow Establishes
await_mined-Establishes P (mined receipt) rest s h = h receipt refl
await_mined-Establishes P (refused reason) rest s h = tt
await_mined-Establishes P (unsent e) rest s h = tt

pub expect_reverted-Establishes {κ} :
    {State : Type 0} (P : Unit {0} → State → Type κ) (outcome : Outcome) (s : State)
    → ((reason : String) → outcome ≡ refused reason → P tt s)
    → Establishes P (expect_reverted outcome s)
unfolding expect_reverted Establishes
expect_reverted-Establishes P (refused reason) s h = h reason refl
expect_reverted-Establishes P (mined receipt) s h = tt
expect_reverted-Establishes P (unsent e) s h = tt

module _ ⦃big : BigNumberApi⦄ (suite : Suite) where
  open suite use {chain}

  pub submit-Establishes {ℓ κ} :
      {A : Type ℓ} (P : A → chain.State → Type κ) (call : Call) (rest : Outcome → Run chain.State A)
      (s : chain.State)
      → ((outcome : Outcome) (r : chain.State)
          → chain.send call s ≡ (outcome, r)
          → Establishes P (rest outcome r))
      → Establishes P (follow rest (submit suite call s))
  unfolding submit follow
  submit-Establishes P call rest s h = h (chain.send call s).0 (chain.send call s).1 refl

  pub get_tx_cost_and_timestamp-IsReader :
      (receipt : Receipt) → IsReader (get_tx_cost_and_timestamp suite receipt)
  unfolding get_tx_cost_and_timestamp
  get_tx_cost_and_timestamp-IsReader receipt = search (bind-IsReader, view-IsReader, pure-IsReader)

  converted-IsReader :
      (reserve : String) (value : Option String) → IsReader (converted suite reserve value)
  unfolding converted
  converted-IsReader reserve none = λ s. refl
  converted-IsReader reserve (some value) = search (bind-IsReader, view-IsReader)

  pub value_to_send-IsReader :
      (reserve : String) (value : Option String) → IsReader (value_to_send suite reserve value)
  unfolding value_to_send
  value_to_send-IsReader reserve value = converted-IsReader reserve (given value)

  pub amount_or_all-IsReader :
      (reserve amount : String) → IsReader (amount_or_all suite reserve amount)
  unfolding amount_or_all
  amount_or_all-IsReader reserve amount s = elim (Bool-cases (str_eq amount "-1")) [
    | inl e ↦ rw e
    | inr e ↦ rw e
  ]

module _ ⦃big : BigNumberApi⦄ (doc : Documented big) (suite : Suite)
    (checks : suite.skip_integrity_check ≡ false) where
  open suite use {chain}

  -- A comparison that returns has found the data close.
  pub expect_reserve-Establishes {κ} :
      (P : Unit {0} → chain.State → Type κ) (actual expected : ReserveData)
      (rest : Unit {0} → Run chain.State (Unit {0})) (s : chain.State)
      → (IsClose expected actual → Establishes P (rest tt s))
      → Establishes P (follow rest (expect_reserve suite actual expected s))
  unfolding expect_reserve
  expect_reserve-Establishes P actual expected rest s h = rw checks (
      read-Establishes P _ rest s (λ done equal. h (
        (expect_equal-IsClose doc suite.conversions expected actual empty_user empty_user).0.0
          equal)))

  pub expect_user-Establishes {κ} :
      (P : Unit {0} → chain.State → Type κ) (actual expected : UserReserveData)
      (rest : Unit {0} → Run chain.State (Unit {0})) (s : chain.State)
      → (IsCloseUser expected actual → Establishes P (rest tt s))
      → Establishes P (follow rest (expect_user suite actual expected s))
  unfolding expect_user
  expect_user-Establishes P actual expected rest s h = rw checks (
      read-Establishes P _ rest s (λ done equal. h (
        (expect_equal-IsClose doc suite.conversions empty_reserve empty_reserve expected actual).1.0
          equal)))

  -- The comparison of the user that ends an action
  pub expect_user-ends {κ} :
      (P : Unit {0} → chain.State → Type κ) (actual expected : UserReserveData) (s : chain.State)
      → (IsCloseUser expected actual → P tt s)
      → Establishes P (expect_user suite actual expected s)
  unfolding follow Establishes
  expect_user-ends P actual expected s h =
      last-Establishes P _ (expect_user-Establishes P actual expected return s h)

  -- Close data is accepted.
  pub expect_reserve-IsClose :
      (actual expected : ReserveData) (s : chain.State)
      → IsClose expected actual
      → expect_reserve suite actual expected s ≡ (ok tt, s)
  unfolding expect_reserve
  expect_reserve-IsClose actual expected s close = rw (
    checks,
    (expect_equal-IsClose doc suite.conversions expected actual empty_user empty_user).0.1 close,
  )

  pub expect_user-IsCloseUser :
      (actual expected : UserReserveData) (s : chain.State)
      → IsCloseUser expected actual
      → expect_user suite actual expected s ≡ (ok tt, s)
  unfolding expect_user
  expect_user-IsCloseUser actual expected s close = rw (
    checks,
    (expect_equal-IsClose doc suite.conversions empty_reserve empty_reserve expected actual).1.1
        close,
  )
