-- ===== src/Events/Emission.antt =====
-- What `matchEvent` accepts.
use Prim.Native.String.{String}
use lend_core.Prelude.{
  ap, ◌∙◌, subst, branches, ◌≡◌, refl, ◌↔◌, List, [], ◌∷◌, Option, none, some, Bool, true, false,
  inl, inr, if◌then◌else◌,
}
use lend_core.Prelude.Result.{Result, ok, ◌>>=◌, >>=-inverse}
use lend_core.BigNumber.{BigNumberApi}
use lend_core.Events.{
  Argument, Log, EventContract, Builtins, sig_hash, is_candidate, fits, not_found, judged, scan,
  scan_for, match_event,
}

same_hash : {h k : String} → some h ≡ some k → k ≡ h
same_hash e = cc

module _ ⦃big : BigNumberApi⦄ (js : Builtins) (name : String) (contract : EventContract)
    (emitter : Option String) (expected_args : Option (List Argument)) where
  abbrev matches : List Argument → Result Bool
  matches = fits js name contract emitter expected_args expected_args

  abbrev candidate : String → Log → Bool
  candidate = is_candidate js name contract emitter expected_args

  abbrev search_from : String → Bool → List Log → Result (Unit {0})
  search_from = scan js name contract emitter expected_args

  -- A log of the event is there that has the expected arguments; the logs of the event before it
  -- have as many arguments, but not all as expected.
  pub data Emitted (hash : String) : List Log → Type 0 where
    found :
        {log : Log} {logs : List Log} (actual : List Argument)
        → candidate hash log ≡ true
        → contract.parse_log log ≡ ok actual
        → matches actual ≡ ok true
        → Emitted hash (log ∷ logs)
    another :
        {log : Log} {logs : List Log}
        → candidate hash log ≡ false
        → Emitted hash logs
        → Emitted hash (log ∷ logs)
    unlike :
        {log : Log} {logs : List Log} (actual : List Argument)
        → candidate hash log ≡ true
        → contract.parse_log log ≡ ok actual
        → matches actual ≡ ok false
        → Emitted hash logs
        → Emitted hash (log ∷ logs)

  Emitted-scan :
      {hash : String} {logs : List Log} (invalid : Bool)
      → Emitted hash logs
      → search_from hash invalid logs ≡ ok tt
  unfolding scan judged
  Emitted-scan invalid (found actual c p f) = rw (c, p, f)
  Emitted-scan invalid (another c e) = rw c (Emitted-scan invalid e)
  Emitted-scan invalid (unlike actual c p f e) = rw (c, p, f) (Emitted-scan true e)

  abbrev decided : String → List Log → Bool → Result (Unit {0})
  decided hash logs matched = if matched then ok tt else search_from hash true logs

  judged-Emitted :
      (hash : String) (log : Log) (logs : List Log)
      → candidate hash log ≡ true
      → (search_from hash true logs ≡ ok tt → Emitted hash logs)
      → judged js name contract emitter expected_args log (search_from hash true logs) ≡ ok tt
      → Emitted hash (log ∷ logs)
  unfolding judged
  judged-Emitted hash log logs c ih h =
      let (actual, parsed, h1) =
        >>=-inverse (contract.parse_log log) (λ a. matches a >>= decided hash logs) tt h in
      let (matched, fitted, h2) = >>=-inverse (matches actual) (decided hash logs) tt h1 in
      elim (branches matched (ok tt) (search_from hash true logs) (ok tt) h2) [
        | inl (good, done) ↦ found actual c parsed (fitted ∙ ap ok good)
        | inr (bad, later) ↦ unlike actual c parsed (fitted ∙ ap ok bad) (ih later)
      ]

  scan-Emitted :
      (hash : String) (invalid : Bool) (logs : List Log)
      → search_from hash invalid logs ≡ ok tt
      → Emitted hash logs
  unfolding scan not_found
  scan-Emitted hash true [] h = cc
  scan-Emitted hash false [] h = cc
  scan-Emitted hash invalid (log ∷ logs) h = elim (branches (candidate hash log) _ _ _ h) [
    | inl (c, judgement) ↦ judged-Emitted hash log logs c (scan-Emitted hash true logs) judgement
    | inr (c, skipped) ↦ another c (scan-Emitted hash invalid logs skipped)
  ]

  scan_for-Emitted :
      (hash : Option String) (logs : List Log)
      → (scan_for js name contract emitter expected_args hash logs ≡ ok tt)
        ↔ ((h : String) × (hash ≡ some h) × Emitted h logs)
  unfolding scan_for
  scan_for-Emitted none logs = (λ h. cc, λ (hash, e, m). cc)
  scan_for-Emitted (some hash) logs = (
    (λ h. (hash, refl, scan-Emitted hash false logs h)),
    (λ (other, e, m). Emitted-scan false (subst (λ o. Emitted o logs) (same_hash e) m)),
  )

  -- The check of an event returns exactly if the contract has an event of the name and among the
  -- logs of the transaction there is one of that event, from the emitter if one is given, that
  -- has the expected arguments, if any are given. Before it there may be logs of the event with as
  -- many arguments but other ones, and whatever stands behind it is not looked at.
  pub match_event-Emitted :
      (logs : List Log)
      → (match_event js name contract emitter expected_args (some logs) ≡ ok tt) ↔ (
          (hash : String) × (sig_hash js name contract emitter expected_args contract.events
            ≡ some hash)
          × Emitted hash logs)
  unfolding match_event
  match_event-Emitted logs =
      scan_for-Emitted (sig_hash js name contract emitter expected_args contract.events) logs
