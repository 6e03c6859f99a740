-- ===== src/Scenario/Runs.antt =====
-- test-suites/helpers/scenario-engine.ts: `executeStory`, and what a story that passes and one that
-- throws have done.
use lend_core.Prelude.{◌≡◌, refl, ap, subst, ◌↔◌, List, [], ◌∷◌, ◌++◌}
use lend_core.Prelude.Result.{Result, ok, err, Error}
use lend_core.Prelude.Run.{Run, ◌>>◌, return, follow}
use lend_core.BigNumber.{BigNumberApi}
use lend_core.Actions.{Suite}
use lend_core.Scenario.{Action, Story, Users}
use lend_core.Scenario.Dispatch.{execute_action}

same_state :
    {State : Type 0} {s t : State}
    → ◌≡◌ {A = Result (Unit {0}) × State} (ok tt, s) (ok tt, t)
    → s ≡ t
same_state h = cc

module _ ⦃big : BigNumberApi⦄ (suite : Suite) (users : Users) where
  open suite use {chain}

  unfoldable pub execute_actions : List Action → Run chain.State (Unit {0})
  unfolding execute_action
  execute_actions [] = return tt
  execute_actions (action ∷ actions) = do execute_action suite users action; execute_actions actions

  unfoldable pub execute_story : Story → Run chain.State (Unit {0})
  unfolding execute_actions
  execute_story story = execute_actions story.actions

  -- The actions lead from a state to another, one after the other, and each returns.
  pub data Passed : List Action → chain.State → chain.State → Type 0 where
    passed_none : {s : chain.State} → Passed [] s s
    passed_next :
        {action : Action} {actions : List Action} {s r t : chain.State}
        → execute_action suite users action s ≡ (ok tt, r)
        → Passed actions r t
        → Passed (action ∷ actions) s t

  -- One of the actions throws where the actions before it have led; none after it runs.
  pub Stopped : List Action → chain.State → Error → chain.State → Type 0
  Stopped actions s e t =
      (before rest : List Action) × (action : Action) × (r : chain.State) × (actions
        ≡ before ++ (action ∷ rest))
      × Passed before s r
      × (execute_action suite users action r ≡ (err e, t))

  -- One step of the induction, by what the first action came to
  next_passes :
      (action : Action) (actions : List Action) (s t : chain.State)
      (outcome : Result (Unit {0}) × chain.State)
      → execute_action suite users action s ≡ outcome
      → ((r : chain.State) → execute_actions actions r ≡ (ok tt, t) → Passed actions r t)
      → follow (λ done. execute_actions actions) outcome ≡ (ok tt, t)
      → Passed (action ∷ actions) s t
  unfolding follow
  next_passes action actions s t (ok done, r) e ih h = passed_next e (ih r h)
  next_passes action actions s t (err x, r) e ih h = cc

  actions_pass :
      (actions : List Action) (s t : chain.State)
      → execute_actions actions s ≡ (ok tt, t)
      → Passed actions s t
  unfolding execute_actions
  actions_pass [] s t h = subst (λ r. Passed [] s r) (same_state h) passed_none
  actions_pass (action ∷ actions) s t h =
      next_passes action actions s t (execute_action suite users action s) refl
        (λ r. actions_pass actions r t) h

  Passed-runs :
      {actions : List Action} {s t : chain.State}
      → Passed actions s t
      → execute_actions actions s ≡ (ok tt, t)
  unfolding execute_actions follow
  Passed-runs passed_none = refl
  Passed-runs (passed_next e p) = rw e (Passed-runs p)

  next_stops :
      (action : Action) (actions : List Action) (s t : chain.State) (x : Error)
      (outcome : Result (Unit {0}) × chain.State)
      → execute_action suite users action s ≡ outcome
      → ((r : chain.State) → execute_actions actions r ≡ (err x, t) → Stopped actions r x t)
      → follow (λ done. execute_actions actions) outcome ≡ (err x, t)
      → Stopped (action ∷ actions) s x t
  unfolding follow Stopped
  next_stops action actions s t x (ok done, r) e ih h =
      let (before, rest, thrower, u, parts, passed, threw) = ih r h in
      (action ∷ before, rest, thrower, u, ap (λ l. action ∷ l) parts, passed_next e passed, threw)
  next_stops action actions s t x (err y, r) e ih h =
      ([], actions, action, s, refl, passed_none, cc)

  actions_stop :
      (actions : List Action) (s t : chain.State) (x : Error)
      → execute_actions actions s ≡ (err x, t)
      → Stopped actions s x t
  unfolding execute_actions
  actions_stop [] s t x h = cc
  actions_stop (action ∷ actions) s t x h =
      next_stops action actions s t x (execute_action suite users action s) refl
        (λ r. actions_stop actions r t x) h

  -- A story ends, and in one of two ways. It passes exactly if its actions lead from the first
  -- state to the last, one after the other, and each of them returns. If it throws, its actions up
  -- to some point have led to a state where the next one throws the same, and those behind that one
  -- are not run.
  pub execute_story_runs :
      (story : Story) (s t : chain.State)
      → ((execute_story story s ≡ (ok tt, t)) ↔ Passed story.actions s t)
        × ((x : Error) → execute_story story s ≡ (err x, t) → Stopped story.actions s x t)
  unfolding execute_story
  execute_story_runs story s t =
      ((actions_pass story.actions s t, Passed-runs), actions_stop story.actions s t)
