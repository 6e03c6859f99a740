-- ===== src/Prelude/Run.antt =====
-- Code that talks to the chain: it reads and changes the chain's state, and returns a value or
-- throws. What it changed before an exception stays changed.
use lend_core.Prelude.{◌≡◌, refl, sym, ◌∙◌, subst}
use lend_core.Prelude.Result.{Result, ok, err, Error}

abbrev pub Run {ℓ} : Type 0 → Type ℓ → Type ℓ
Run State A = State → Result A × State

-- The rest of the code runs in the state that the first part leaves, unless it threw.
unfoldable pub follow {κ ℓ} :
    {State : Type 0} {B : Type κ} {A : Type ℓ}
    → (B → Run State A)
    → Result B × State
    → Result A × State
follow rest (ok b, s) = rest b s
follow rest (err e, s) = (err e, s)

abbrev pub ◌>>=◌ {κ ℓ} :
    {State : Type 0} {B : Type κ} {A : Type ℓ} → Run State B → (B → Run State A) → Run State A
first >>= rest = λ s. follow rest (first s)

infixl 5 ◌>>◌ ◌>>=◌
abbrev pub ◌>>◌ {κ} :
    {State : Type 0} {A : Type κ} → Run State (Unit {0}) → Run State A → Run State A
statement >> rest = statement >>= λ done. rest

abbrev pub return {ℓ} : {State : Type 0} {A : Type ℓ} → A → Run State A
return a s = (ok a, s)

abbrev pub throw {ℓ} : {State : Type 0} {A : Type ℓ} → Error → Run State A
throw e s = (err e, s)

-- A call that only reads the state
abbrev pub view {ℓ} : {State : Type 0} {A : Type ℓ} → (State → Result A) → Run State A
view call s = (call s, s)

-- A calculation that does not look at the state
abbrev pub pure {ℓ} : {State : Type 0} {A : Type ℓ} → Result A → Run State A
pure result s = (result, s)

-- What holds of the value and of the state, if a run returns.
unfoldable pub Establishes {ℓ κ} :
    {State : Type 0} {A : Type ℓ} → (A → State → Type κ) → Result A × State → Type κ
Establishes P (ok a, t) = P a t
Establishes P (err e, t) = Unit

pub read-Establishes {κ ℓ μ} :
    {State : Type 0} {B : Type κ} {A : Type ℓ} (P : A → State → Type μ) (result : Result B)
    (rest : B → Run State A) (s : State)
    → ((b : B) → result ≡ ok b → Establishes P (rest b s))
    → Establishes P (follow rest (result, s))
unfolding follow Establishes
read-Establishes P (ok b) rest s h = h b refl
read-Establishes P (err e) rest s h = tt

-- A run that leaves the state as it is, whether it returns or throws.
abbrev pub IsReader {ℓ} : {State : Type 0} {A : Type ℓ} → Run State A → Type 0
IsReader {State = State} m = (s : State) → (m s).1 ≡ s

pub view-IsReader {ℓ} :
    {State : Type 0} {A : Type ℓ} (call : State → Result A) → IsReader (view call)
view-IsReader call s = refl

pub pure-IsReader {ℓ} :
    {State : Type 0} {A : Type ℓ} (r : Result A) → IsReader {State = State} (pure r)
pure-IsReader r s = refl

follow-state {κ ℓ} :
    {State : Type 0} {B : Type κ} {A : Type ℓ} (rest : B → Run State A) (outcome : Result B × State)
    (s : State)
    → outcome.1 ≡ s
    → ((b : B) → IsReader (rest b))
    → (follow rest outcome).1 ≡ s
unfolding follow
follow-state rest (ok b, r) s h k = k b r ∙ h
follow-state rest (err e, r) s h k = h

pub bind-IsReader {κ ℓ} :
    {State : Type 0} {B : Type κ} {A : Type ℓ} (m : Run State B) (rest : B → Run State A)
    → IsReader m
    → ((b : B) → IsReader (rest b))
    → IsReader (m >>= rest)
bind-IsReader m rest h k s = follow-state rest (m s) s (h s) k

reader_step {κ ℓ μ} :
    {State : Type 0} {B : Type κ} {A : Type ℓ} (P : A → State → Type μ) (outcome : Result B × State)
    (rest : B → Run State A) (s : State)
    → outcome.1 ≡ s
    → ((b : B) → outcome ≡ (ok b, s) → Establishes P (rest b s))
    → Establishes P (follow rest outcome)
unfolding follow Establishes
reader_step P (ok b, r) rest s e h = subst (λ t. Establishes P (rest b t)) (sym e) (h b cc)
reader_step P (err x, r) rest s e h = tt

pub reader-Establishes {κ ℓ μ} :
    {State : Type 0} {B : Type κ} {A : Type ℓ} (P : A → State → Type μ) (m : Run State B)
    (rest : B → Run State A) (s : State)
    → IsReader m
    → ((b : B) → m s ≡ (ok b, s) → Establishes P (rest b s))
    → Establishes P (follow rest (m s))
reader-Establishes P m rest s r h = reader_step P (m s) rest s (r s) h

pub returned {ℓ κ} :
    {State : Type 0} {A : Type ℓ} (P : A → State → Type κ) (outcome : Result A × State) (a : A)
    (t : State)
    → Establishes P outcome
    → outcome ≡ (ok a, t)
    → P a t
unfolding Establishes
returned P (ok b, s) a t h e = subst (λ o. Establishes P o) e h
returned P (err x, s) a t h e = cc

-- A run that ends without a rest
pub last-Establishes {ℓ κ} :
    {State : Type 0} {A : Type ℓ} (P : A → State → Type κ) (outcome : Result A × State)
    → Establishes P (follow return outcome)
    → Establishes P outcome
unfolding follow Establishes
last-Establishes P (ok a, s) h = h
last-Establishes P (err e, s) h = tt

pub weaken-Establishes {ℓ κ μ} :
    {State : Type 0} {A : Type ℓ} (P : A → State → Type κ) (Q : A → State → Type μ)
    (outcome : Result A × State)
    → Establishes P outcome
    → ((a : A) (t : State) → P a t → Q a t)
    → Establishes Q outcome
unfolding Establishes
weaken-Establishes P Q (ok a, t) h k = k a t h
weaken-Establishes P Q (err e, t) h k = tt

-- A run in two parts and its rest
pub nested-Establishes {κ ℓ μ} :
    {State : Type 0} {B : Type κ} {A : Type ℓ} (P : A → State → Type μ) (outcome : Result B × State)
    (rest : B → Run State A)
    → Establishes (λ b t. Establishes P (rest b t)) outcome
    → Establishes P (follow rest outcome)
unfolding follow Establishes
nested-Establishes P (ok b, s) rest h = h
nested-Establishes P (err e, s) rest h = tt
