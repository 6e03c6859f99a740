-- ===== src/Scenario/Throwing.antt =====
-- test-suites/helpers/scenario-engine.ts: runs that throw before they change the chain.
use Prim.Native.String.{String}
use lend_core.Prelude.{◌≡◌, refl, Option, none, some, Bool, true, false, ◌&&◌, if◌then◌else◌}
use lend_core.Prelude.Result.{Error, err, defined}
use lend_core.Prelude.Run.{Run, ◌>>=◌, follow, pure}
use lend_core.Actions.{required}
use lend_core.Scenario.{Users, chosen}
use lend_core.Scenario.Needs.{is_some}

-- The run throws and leaves the state as it is.
unfoldable pub Throws : {State : Type 0} → Run State (Unit {0}) → State → Type 0
Throws m s = (e : Error) × (m s ≡ (err e, s))

-- One name of the `switch`, with its line in the table
pub choice-Throws :
    {State : Type 0} (b all rest known : Bool) (x y : Run State (Unit {0})) (s : State)
    → ((if b then all else rest) && known) ≡ false
    → ((all && known) ≡ false → Throws x s)
    → ((rest && known) ≡ false → Throws y s)
    → Throws (if b then x else y) s
choice-Throws true all rest known x y s h k l = k h
choice-Throws false all rest known x y s h k l = l h

pub defined-Throws {κ} :
    {State : Type 0} {B : Type κ} (o : Option B) (rest : B → Run State (Unit {0})) (s : State)
    → ((b : B) → o ≡ some b → Throws (rest b) s)
    → Throws (pure (defined o) >>= rest) s
unfolding Throws follow
defined-Throws none rest s h = (_, refl)
defined-Throws (some b) rest s h = h b refl

pub required-Throws {κ} :
    {State : Type 0} {B : Type κ} (message : String) (o : Option B)
    (rest : B → Run State (Unit {0})) (s : State)
    → ((b : B) → o ≡ some b → Throws (rest b) s)
    → Throws (pure (required message o) >>= rest) s
unfolding Throws follow
required-Throws message none rest s h = (_, refl)
required-Throws message (some b) rest s h = h b refl

-- Whether the beneficiary exists does not depend on the user, who exists.
pub chosen-some :
    (users : Users) (index user : Option String) (a : String)
    → chosen users index user ≡ some a
    → is_some (chosen users index (some "")) ≡ true
unfolding chosen
chosen-some users none user a h = refl
chosen-some users (some index) user a h = rw h

pub impossible : {P : Type 0} (b : Bool) → b ≡ false → b ≡ true → P
impossible b h k = cc
