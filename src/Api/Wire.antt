-- ===== src/Api/Wire.antt =====
-- What a request carries, and how the zod schemas of apps/api/src read it. The tests of zod on texts,
-- its conversion to a number and the texts of its issues are a parameter.
use employee_compliance_saas.Common.{
  ℕ, String, Bool, false, Option, none, some, List, [], ◌∷◌, ◌++◌, length, ltb, if◌then◌else◌,
  str_eq,
}
use employee_compliance_saas.Common.Exec.{bad_request, Result, ok, err}
use employee_compliance_saas.Common.Int.{ℤ, pos, negsuc}
use employee_compliance_saas.Database.Schema.{Uuid}
use employee_compliance_saas.Imports.Rows.{units}

-- A value of JavaScript, as `JSON.parse` and the query parser make them: a number is an integer or has
-- a fraction, and an object has each of its keys once.
mutual
  pub data Value : Type 0 where
    undefined null : Value
    boolean : Bool → Value
    integer : ℤ → Value
    fraction : Value
    text : String → Value
    array : Values → Value
    object : Properties → Value

  pub data Values : Type 0 where
    nil : Values
    cons : Value → Values → Values

  pub data Properties : Type 0 where
    end : Properties
    property : String → Value → Properties → Properties

abbrev pub elements : Values → List Value
elements nil = []
elements (cons v vs) = v ∷ elements vs

abbrev pub get : String → Properties → Value
get name end = undefined
get name (property key value rest) =
    let later = get name rest in if str_eq key name then value else later

-- What zod says of a value that it refuses.
pub data Issue : Type 0 where
  invalid_type invalid_string invalid_enum too_small too_big : Issue

abbrev pub Problems : Type 0
Problems = List (String × Issue)

-- What the schemas use of zod: the texts that are a uuid, with the number that they stand for, a mail
-- address or a date; the integer that a value is once it has been coerced to a number, if it is one;
-- and the text of `error.flatten()`.
pub record Zod : Type 0 where
  pub uuid : String → Option Uuid
  pub is_email : String → Bool
  pub is_date : String → Bool
  pub coerce_integer : Value → Option ℤ
  pub flatten : Problems → String

pub data Parsed (A : Type 0) : Type 0 where
  good : A → Parsed A
  bad : Problems → Parsed A

-- The next property of an object: the issues of all properties are collected, of each property the first.
infixl 10 ◌<*>◌
abbrev pub ◌<*>◌ : {A B : Type 0} → Parsed (A → B) → Parsed A → Parsed B
good f <*> good a = good (f a)
good f <*> bad p = bad p
bad p <*> good a = bad p
bad p <*> bad q = bad (p ++ q)

-- What a schema makes of one value.
pub data Checked (A : Type 0) : Type 0 where
  fine : A → Checked A
  refused : Issue → Checked A

abbrev pub Check : Type 0 → Type 0
Check A = Value → Checked A

abbrev pub named : {A : Type 0} → String → Checked A → Parsed A
named name (fine a) = good a
named name (refused issue) = bad ((name, issue) ∷ [])

-- The property `name` of an object.
abbrev pub field : {A : Type 0} → String → Check A → Properties → Parsed A
field name check given = named name (check (get name given))

-- `z.object({ … })`: other properties are dropped.
abbrev pub object_of : {A : Type 0} → (Properties → Parsed A) → Value → Parsed A
object_of shape (object given) = shape given
object_of shape _ = bad (("", invalid_type) ∷ [])

-- `z.string().min(lo).max(hi)`, for texts that are not measured in code points but in UTF-16 units.
abbrev pub text_between : ℕ → ℕ → Check String
text_between lo hi (text s) =
    if ltb (units s) lo
    then refused too_small
    else if ltb hi (units s)
    then refused too_big
    else fine s
text_between lo hi _ = refused invalid_type

-- `z.string()` with a test of zod.
abbrev pub text_that : (String → Bool) → Check String
text_that test (text s) = if test s then fine s else refused invalid_string
text_that test _ = refused invalid_type

abbrev pub known : {A : Type 0} → Issue → Option A → Checked A
known issue none = refused issue
known issue (some a) = fine a

abbrev pub uuid_text : Zod → Check Uuid
uuid_text zod (text s) = known invalid_string (zod.uuid s)
uuid_text zod _ = refused invalid_type

-- `z.enum([…])`
abbrev pub named_value : {A : Type 0} → List (String × A) → String → Option A
named_value [] name = none
named_value ((key, a) ∷ rest) name =
    let later = named_value rest name in if str_eq key name then some a else later

abbrev pub one_of : {A : Type 0} → List (String × A) → Check A
one_of values (text s) = known invalid_enum (named_value values s)
one_of values _ = refused invalid_type

abbrev pub exceeds : Option ℕ → ℕ → Bool
exceeds none n = false
exceeds (some hi) n = ltb hi n

-- `.int().min(lo).max(hi)`
abbrev pub within : ℕ → Option ℕ → Option ℤ → Checked ℕ
within lo hi none = refused invalid_type
within lo hi (some (negsuc n)) = refused too_small
within lo hi (some (pos n)) =
    if ltb n lo then refused too_small else if exceeds hi n then refused too_big else fine n

-- `z.coerce.number()`
abbrev pub coerced : Zod → ℕ → Option ℕ → Check ℕ
coerced zod lo hi v = within lo hi (zod.coerce_integer v)

-- `z.number()`
abbrev pub integer_of : Value → Option ℤ
integer_of (integer n) = some n
integer_of _ = none

abbrev pub number_between : ℕ → ℕ → Check ℕ
number_between lo hi v = within lo (some hi) (integer_of v)

abbrev pub flag : Check Bool
flag (boolean b) = fine b
flag _ = refused invalid_type

abbrev pub present : {A : Type 0} → Checked A → Checked (Option A)
present (fine a) = fine (some a)
present (refused issue) = refused issue

-- `.optional()`: null is refused.
abbrev pub optional : {A : Type 0} → Check A → Check (Option A)
optional check undefined = fine none
optional check v = present (check v)

-- `.default(d)`
abbrev pub defaulting : {A : Type 0} → A → Check A → Check A
defaulting d check undefined = fine d
defaulting d check v = check v

abbrev pub followed_by : {A : Type 0} → Checked A → Checked (List A) → Checked (List A)
followed_by (fine a) (fine rest) = fine (a ∷ rest)
followed_by (fine a) (refused issue) = refused issue
followed_by (refused issue) _ = refused issue

abbrev pub each : {A : Type 0} → Check A → List Value → Checked (List A)
each check [] = fine []
each check (v ∷ vs) = followed_by (check v) (each check vs)

-- `z.array(…).min(lo).max(hi)`
abbrev pub array_between : {A : Type 0} → ℕ → ℕ → Check A → Check (List A)
array_between lo hi check (array vs) =
    if ltb (length (elements vs)) lo
    then refused too_small
    else if ltb hi (length (elements vs))
    then refused too_big
    else each check (elements vs)
array_between lo hi check _ = refused invalid_type

-- `safeParse`, and the exception that every controller throws of a failure.
abbrev pub parsed_or_throw : {A : Type 0} → Zod → Parsed A → Result A
parsed_or_throw zod (good a) = ok a
parsed_or_throw zod (bad problems) = err (bad_request (zod.flatten problems))
