-- ===== src/Filter.antt =====
-- The response to an exception: apps/api/src/filters/http-exception.filter.ts.
use employee_compliance_saas.Common.{
  ℕ, ◌≡◌, ◌≢◌, refl, ◌∙◌, String, false, Option, none, some, or_else, or_default, if◌then◌else◌,
  ◌==◌, arith,
}

-- The JSON under a property of an exception's body, by its printed text; and the body itself: a text,
-- or an object, of which the filter reads three properties and, as a whole, the printed text.
pub data Body : Type 0 where
  plain : String → Body
  object : String → Option String → Option String → Option String → Body

-- What is thrown: an `HttpException` with its status and body, or anything else, with its message.
pub data Thrown : Type 0 where
  http : ℕ → Body → Thrown
  other : String → Thrown

pub record Payload : Type 0 where
  pub error : String
  pub code : ℕ
  pub request_id : String
  pub timestamp : String
  pub details : Option String
  pub detail : Option String

abbrev pub error_name : ℕ → String
error_name status =
    if status == 400
    then "VALIDATION_ERROR"
    else if status == 401
    then "UNAUTHORIZED"
    else if status == 403
    then "FORBIDDEN"
    else if status == 404
    then "NOT_FOUND"
    else if status == 409
    then "CONFLICT"
    else "ERROR"

-- `extra.fieldErrors ?? extra.formErrors ?? extra`; a body that is a text counts as `{}`.
abbrev pub details_of : Body → String
details_of (plain _) = "{}"
details_of (object whole field_errors form_errors detail) =
    or_default (or_else field_errors form_errors) whole

-- `extra.detail`, if it is there.
abbrev pub detail_of : Body → Option String
detail_of (plain _) = none
detail_of (object whole field_errors form_errors detail) = detail

-- The status and the payload. The code is printed as `E` and the number.
unfoldable pub catch : Thrown → Option String → String → ℕ × Payload
catch (http status body) request_id timestamp = (
  status,
  record {
    error = error_name status;
    code = status;
    request_id = or_default request_id "unknown";
    timestamp = timestamp;
    details = if status == 400 then some (details_of body) else none;
    detail = if status == 409 then detail_of body else none;
  },
)
catch (other message) request_id timestamp = (
  500,
  record {
    error = "INTERNAL_ERROR";
    code = 500;
    request_id = or_default request_id "unknown";
    timestamp = timestamp;
    details = none;
    detail = none;
  },
)

not_equal : (a b : ℕ) → a ≢ b → (a == b) ≡ false
not_equal a b h = ground (arith, h)

-- Two exceptions that a client may not tell apart: any two that are not HTTP exceptions, and two HTTP
-- exceptions of one status that is neither 400 nor 409.
abbrev pub IsAlike : Thrown → Thrown → Type 0
IsAlike (other _) (other _) = Unit
IsAlike (http a _) (http b _) = (a ≡ b) × (a ≢ 400) × (a ≢ 409)
IsAlike _ _ = ⊥

-- Two exceptions of which neither is an HTTP exception get the same response whatever their messages
-- are, and so do two HTTP exceptions of one status, neither 400 nor 409, whatever their bodies are.
pub catch_hides :
    (x y : Thrown) (request_id : Option String) (timestamp : String)
    → IsAlike x y
    → catch x request_id timestamp ≡ catch y request_id timestamp
unfolding catch
catch_hides (other m) (other n) request_id timestamp h = refl
catch_hides (http a x) (http b y) request_id timestamp (h, k, l) =
    rw h (rw ((not_equal b 400 (λ e. k (h ∙ e))), (not_equal b 409 (λ e. l (h ∙ e)))))
catch_hides (http a x) (other n) request_id timestamp h = absurd h
catch_hides (other m) (http b y) request_id timestamp h = absurd h
