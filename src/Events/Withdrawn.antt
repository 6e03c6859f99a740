-- ===== src/Events/Withdrawn.antt =====
-- test-suites/helpers/utils/tokenization-events.ts: when `withdraw` returns, and with what events.
use Prim.Native.String.{String}
use package.text.Mathlib.Text.{◌==◌ as str_eq}
use lend_core.Prelude.{◌≡◌, ◌↔◌, refl, ℕ, List, false}
use lend_core.Prelude.Int.{ℤ, pos}
use lend_core.Prelude.Result.{ok}
use lend_core.Prelude.Run.{Run, Establishes, read-Establishes, nested-Establishes, returned, follow}
use lend_core.BigNumber.{BigNumberApi, Documented}
use lend_core.Chain.{Call, Receipt, Outcome, TokenAddresses, mined, refused, unsent}
use lend_core.Chain.Reading.{convert_to_currency_decimals}
use lend_core.Actions.{Suite, submit, await_mined}
use lend_core.Actions.Steps.{submit-Establishes}
use lend_core.Events.Tokens.{Expected, zero_address}
use lend_core.Events.Transfers.{match_all}
use lend_core.Events.Balances.{withdrawing, events_of, Moves}
use lend_core.Events.Conservation.{expected_events-Moves}
use lend_core.Events.Runs.{Observer, mined_call, check_events, withdraw}

awaited-Establishes {κ} :
    {State : Type 0} (P : Receipt → State → Type κ) (outcome : Outcome) (s : State)
    → ((receipt : Receipt) → outcome ≡ mined receipt → P receipt s)
    → Establishes P (await_mined outcome s)
unfolding await_mined Establishes
awaited-Establishes P (mined receipt) s h = h receipt refl
awaited-Establishes P (refused reason) s h = tt
awaited-Establishes P (unsent e) s h = tt

module _ ⦃big : BigNumberApi⦄ (doc : Documented big) (suite : Suite) (observer : Observer) where
  open suite use {chain, ethers}

  mined_call-Establishes {ℓ κ} :
      {A : Type ℓ} (P : A → chain.State → Type κ) (call : Call) (rest : Receipt → Run chain.State A)
      (s : chain.State)
      → ((receipt : Receipt) (t : chain.State)
          → chain.send call s ≡ (mined receipt, t)
          → Establishes P (rest receipt t))
      → Establishes P (follow rest (mined_call suite observer call s))
  unfolding mined_call
  mined_call-Establishes P call rest s h = nested-Establishes P _ rest (
      submit-Establishes suite _ call _ s
        (λ outcome r sent. awaited-Establishes _ outcome r (λ receipt was. h receipt r cc)))

  check_events-Establishes {κ} :
      (P : Receipt → chain.State → Type κ) (receipt : Receipt) (es : List Expected)
      (s : chain.State)
      → (match_all observer.builtins observer.contracts receipt.logs es ≡ ok tt → P receipt s)
      → Establishes P (check_events suite observer receipt es s)
  unfolding check_events Establishes
  check_events-Establishes P receipt es s h = read-Establishes P _ _ s (λ done found. h found)

  -- What the run reads before and after its transaction, the events that it expects and finds in
  -- the receipt, and what their transfers add up to
  pub IsWithdrawn : String → String → String → String → chain.State → Receipt → chain.State → Type 0
  IsWithdrawn user underlying text to s receipt t =
      (amount : ℤ) × (tokens : TokenAddresses) × (before after scaled : ℕ) × (es : List Expected)
      × (convert_to_currency_decimals chain ethers underlying text s ≡ ok amount)
      × (chain.pool_token_addresses underlying s ≡ ok tokens)
      × (chain.previous_index tokens.h_token_address user s ≡ ok before)
      × (chain.send (Call.withdraw user underlying amount to) s ≡ (mined receipt, t))
      × (chain.normalized_income underlying t ≡ ok after)
      × (chain.scaled_balance_of tokens.h_token_address user t ≡ ok scaled)
      × (events_of user to underlying tokens.h_token_address "" amount (pos before) (pos after)
            (pos scaled) withdrawing
          ≡ ok es)
      × (match_all observer.builtins observer.contracts receipt.logs es ≡ ok tt)
      × Moves user to underlying tokens.h_token_address "" amount (pos before) (pos after)
          (pos scaled) withdrawing es

  withdraw-Establishes :
      (user underlying text to : String) (s : chain.State)
      → str_eq user zero_address ≡ false
      → Establishes
          (λ receipt t. IsWithdrawn user underlying text to s receipt t)
          (withdraw suite observer user underlying text to s)
  unfolding withdraw IsWithdrawn events_of
  withdraw-Establishes user underlying text to s real = read-Establishes _ _ _ s (λ n converted.
      read-Establishes _ _ _ s (λ tokens read. read-Establishes _ _ _ s (λ before known.
        mined_call-Establishes _ (Call.withdraw user underlying n to) _ s (λ receipt t sent.
          read-Establishes _ _ _ t (λ after indexed. read-Establishes _ _ _ t (λ scaled held.
            read-Establishes _ _ _ t (λ es expected.
              check_events-Establishes _ receipt es t (λ found. (
                n,
                tokens,
                before,
                after,
                scaled,
                es,
                converted,
                read,
                known,
                sent,
                indexed,
                held,
                expected,
                found,
                expected_events-Moves doc user to underlying tokens.h_token_address "" n
                    (pos before) (pos after) (pos scaled) es withdrawing real expected,
              )))))))))

  IsWithdrawn-withdraw :
      (user underlying text to : String) (s t : chain.State) (receipt : Receipt)
      → IsWithdrawn user underlying text to s receipt t
      → withdraw suite observer user underlying text to s ≡ (ok receipt, t)
  unfolding withdraw IsWithdrawn events_of mined_call check_events submit await_mined follow
  IsWithdrawn-withdraw user underlying text to s t receipt
        (
          n, tokens, before, after, scaled, es, converted, read, known, sent, indexed, held,
          expected, found, moves,
        ) =
      rw (converted, read, known, sent, indexed, held, expected, found)

  -- For a user who is not the zero address, the withdrawal of the token tests returns exactly if
  -- the amount, the tokens and the previous index can be read, the transaction is mined, the index
  -- and the scaled balance can be read after it, and the events that are calculated from these
  -- are in the receipt. The transfers among these events that mint or burn the user's hTokens then
  -- add up to the interest since the previous index less the amount.
  pub withdraw_returns_exactly :
      (user underlying text to : String) (s t : chain.State) (receipt : Receipt)
      → str_eq user zero_address ≡ false
      → (withdraw suite observer user underlying text to s ≡ (ok receipt, t))
        ↔ IsWithdrawn user underlying text to s receipt t
  withdraw_returns_exactly user underlying text to s t receipt real = (
    returned _ _ receipt t (withdraw-Establishes user underlying text to s real),
    IsWithdrawn-withdraw user underlying text to s t receipt,
  )
