-- ===== src/Common/Exec.antt =====
-- Code that mutates a state and may throw: what was written before a throw stays written unless
-- something rolls it back, so the state comes back beside the exception too.
pub mod Keeps
use employee_compliance_saas.Common.{String}

-- The exceptions of the program: the HTTP exceptions of Nest, plain `Error`s, and the errors that
-- Postgres raises, by their SQLSTATE.
pub data Exception : Type 0 where
  bad_request unauthorized forbidden not_found plain_error : String → Exception
  conflict : String → String → Exception
  pg_error : String → Exception

pub data Result {ℓ} (A : Type ℓ) : Type ℓ where
  ok : A → Result A
  err : Exception → Result A

-- What a call leaves: its result and the state. A call is awaited in a state.
abbrev pub Exec {ℓ} : Type ℓ → Type ℓ → Type ℓ
Exec State Value = State → Result Value × State

-- Go on with the value of a call that has returned; a throw goes past the rest.
abbrev pub resume {ℓ} :
    {State Value Next : Type ℓ}
    → (Value → Exec State Next)
    → Result Value × State
    → Result Next × State
resume next (ok value, state) = next value state
resume next (err thrown, state) = (err thrown, state)

infixl 10 ◌>>=◌ ◌>>◌
abbrev pub ◌>>=◌ {ℓ} :
    {State Value Next : Type ℓ} → Exec State Value → (Value → Exec State Next) → Exec State Next
(call >>= next) state = resume next (call state)

abbrev pub ◌>>◌ {ℓ} :
    {State Value Next : Type ℓ} → Exec State Value → Exec State Next → Exec State Next
call >> rest = call >>= λ _. rest

abbrev pub throw {ℓ} : {State Value : Type ℓ} → Exception → Exec State Value
throw thrown state = (err thrown, state)

abbrev pub pure {ℓ} : {State Value : Type ℓ} → Value → Exec State Value
pure value state = (ok value, state)

abbrev pub gets {ℓ} : {State Value : Type ℓ} → (State → Value) → Exec State Value
gets read state = (ok (read state), state)

abbrev pub modify {ℓ} : {State : Type ℓ} → (State → State) → Exec State (Unit {ℓ})
modify write state = (ok tt, write state)
