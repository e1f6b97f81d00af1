-- ===== src/Common/Exec/Keeps.antt =====
-- What an action keeps of the state, one rule for each way to build an action.
use employee_compliance_saas.Common.{◌≡◌, refl, Bool, true, false, if◌then◌else◌}
use employee_compliance_saas.Common.Exec.{
  Exception, Result, ok, err, Exec, pure, throw, gets, resume, ◌>>=◌,
}

-- A call that starts in a state with the property ends in one, also if it throws.
pub record Keeps {ℓ} {State Value : Type ℓ} (Holds : State → Type ℓ) (call : Exec State Value)
    : Type ℓ where
  pub at : (before : State) → Holds before → Holds (call before).1

module _ {ℓ} {State : Type ℓ} {Holds : State → Type ℓ} where
  resumed :
      {Value Next : Type ℓ} (next : Value → Exec State Next) (left : Result Value × State)
      → Holds left.1
      → ((value : Value) → Keeps Holds (next value))
      → Holds (resume next left).1
  resumed next (ok value, state) held rest = (rest value).at state held
  resumed next (err thrown, state) held rest = held

  pub >>=-Keeps :
      {Value Next : Type ℓ} (call : Exec State Value) (next : Value → Exec State Next)
      → Keeps Holds call
      → ((value : Value) → Keeps Holds (next value))
      → Keeps Holds (call >>= next)
  >>=-Keeps call next first rest = record {
    at = λ before held. resumed next (call before) (first.at before held) rest;
  }

  -- The two branches, each under its own condition.
  pub branch-Keeps :
      {Value : Type ℓ} (test : Bool) (chosen other : Exec State Value)
      → (test ≡ true → Keeps Holds chosen)
      → (test ≡ false → Keeps Holds other)
      → Keeps Holds (if test then chosen else other)
  branch-Keeps true chosen other on_true on_false = on_true refl
  branch-Keeps false chosen other on_true on_false = on_false refl

  pub gets-Keeps : {Value : Type ℓ} (read : State → Value) → Keeps Holds (gets read)
  gets-Keeps read = record { at = λ before held. held }

  pub pure-Keeps : {Value : Type ℓ} (value : Value) → Keeps Holds (pure value)
  pure-Keeps value = record { at = λ before held. held }

  pub throw-Keeps :
      {Value : Type ℓ} (thrown : Exception) → Keeps Holds (throw {Value = Value} thrown)
  throw-Keeps thrown = record { at = λ before held. held }

pub ruleset keeps_rules = (>>=-Keeps, branch-Keeps, gets-Keeps, pure-Keeps, throw-Keeps)
