-- ===== src/Api/Yields.antt =====
-- What a schema lets through, property by property.
use employee_compliance_saas.Common.{
  suc, ap, ℕ, ◌≤◌, ◌≡◌, refl, String, Option, none, some, List, [], ◌∷◌, arith, ltb, length, All,
  if◌then◌else◌, Bool-cases, inl, inr,
}
use employee_compliance_saas.Common.Int.{ℤ, pos, negsuc}
use employee_compliance_saas.Api.Wire.{
  Value, undefined, null, boolean, integer, fraction, text, array, object, Zod, Properties,
  elements, Parsed, good, bad, ◌<*>◌, Checked, fine, refused, Check, get, named, field, object_of,
  within, coerced, number_between, present, optional, defaulting, each, followed_by, array_between,
  integer_of, too_small, too_big,
}

-- What a schema makes of a value, if it takes it, has the property.
pub record Yields {A : Type 0} (P : A → Type 0) (result : Parsed A) : Type 0 where
  pub at : (a : A) → result ≡ good a → P a

pub record Allows {A : Type 0} (P : A → Type 0) (result : Checked A) : Type 0 where
  pub at : (a : A) → result ≡ fine a → P a

module _ {A B : Type 0} (P : B → Type 0) (Q : A → Type 0) where
  -- One property of an object after another.
  pub after :
      (f : Parsed (A → B)) (x : Parsed A)
      → Yields (λ g. (a : A) → Q a → P (g a)) f
      → Yields Q x
      → Yields P (f <*> x)
  after (good f) (good a) h k = record {
    at = λ b e. let same : f a ≡ b = cc in rw (← same) (h.at f refl a (k.at a refl));
  }
  after (good f) (bad p) h k = record { at = λ b e. cc }
  after (bad p) (good a) h k = record { at = λ b e. cc }
  after (bad p) (bad q) h k = record { at = λ b e. cc }

module _ {A : Type 0} (P : A → Type 0) where
  pub root : (a : A) → P a → Yields P (good a)
  root a h = record { at = λ b e. let same : a ≡ b = cc in rw (← same) h }

  pub field-Yields :
      (name : String) (check : Check A) (given : Properties)
      → ((v : Value) → Allows P (check v))
      → Yields P (field name check given)
  field-Yields name check given h = go (check (get name given)) (h (get name given))
    where
      go : (r : Checked A) → Allows P r → Yields P (named name r)
      go (fine a) k = root a (k.at a refl)
      go (refused issue) k = record { at = λ b e. cc }

  pub object_of-Yields :
      (shape : Properties → Parsed A) (v : Value)
      → ((given : Properties) → Yields P (shape given))
      → Yields P (object_of shape v)
  object_of-Yields shape (object given) h = h given
  object_of-Yields shape undefined h = record { at = λ b e. cc }
  object_of-Yields shape null h = record { at = λ b e. cc }
  object_of-Yields shape (boolean b) h = record { at = λ b e. cc }
  object_of-Yields shape (integer n) h = record { at = λ b e. cc }
  object_of-Yields shape fraction h = record { at = λ b e. cc }
  object_of-Yields shape (text s) h = record { at = λ b e. cc }
  object_of-Yields shape (array vs) h = record { at = λ b e. cc }

pub anything : {A : Type 0} (r : Parsed A) → Yields (λ _. Unit {0}) r
anything r = record { at = λ a e. tt }

-- At least `lo`, and at most `hi` if there is one.
abbrev pub IsWithin : ℕ → Option ℕ → ℕ → Type 0
IsWithin lo none n = lo ≤ n
IsWithin lo (some hi) n = (lo ≤ n) × (n ≤ hi)

within-Allows : (lo : ℕ) (hi : Option ℕ) (n : Option ℤ) → Allows (IsWithin lo hi) (within lo hi n)
within-Allows lo hi none = record { at = λ a e. cc }
within-Allows lo hi (some (negsuc n)) = record { at = λ a e. cc }
within-Allows lo none (some (pos n)) = record { at = λ a e. ground (arith, e) }
within-Allows lo (some hi) (some (pos n)) = record { at = λ a e. ground (arith, e) }

pub coerced-Allows :
    (zod : Zod) (lo : ℕ) (hi : Option ℕ) (v : Value) → Allows (IsWithin lo hi) (coerced zod lo hi v)
coerced-Allows zod lo hi v = within-Allows lo hi (zod.coerce_integer v)

pub defaulting-Allows :
    {A : Type 0} (P : A → Type 0) (d : A) (check : Check A)
    → P d
    → ((v : Value) → Allows P (check v))
    → (v : Value) → Allows P (defaulting d check v)
defaulting-Allows P d check p h undefined = record {
  at = λ a e. let same : d ≡ a = cc in rw (← same) p;
}
defaulting-Allows P d check p h null = h null
defaulting-Allows P d check p h (boolean b) = h (boolean b)
defaulting-Allows P d check p h (integer n) = h (integer n)
defaulting-Allows P d check p h fraction = h fraction
defaulting-Allows P d check p h (text s) = h (text s)
defaulting-Allows P d check p h (array vs) = h (array vs)
defaulting-Allows P d check p h (object ps) = h (object ps)

-- All elements have the property, and they are as many as the values.
abbrev IsEach : {A : Type 0} → (A → Type 0) → ℕ → List A → Type 0
IsEach P n as' = (length as' ≡ n) × All P as'

followed_by-Allows :
    {A : Type 0} (P : A → Type 0) (n : ℕ) (first : Checked A) (rest : Checked (List A))
    → Allows P first
    → Allows (IsEach P n) rest
    → Allows (IsEach P (suc n)) (followed_by first rest)
followed_by-Allows P n (fine a) (fine as') h k = record {
  at = λ bs e.
      let same : a ∷ as' ≡ bs = cc in
      rw (← same) (let (counted, all) = k.at as' refl in (ap suc counted, (h.at a refl, all)));
}
followed_by-Allows P n (fine a) (refused issue) h k = record { at = λ bs e. cc }
followed_by-Allows P n (refused issue) rest h k = record { at = λ bs e. cc }

each-Allows :
    {A : Type 0} (P : A → Type 0) (check : Check A) (vs : List Value)
    → ((v : Value) → Allows P (check v))
    → Allows (IsEach P (length vs)) (each check vs)
each-Allows P check [] h = record { at = λ bs e. let same : [] ≡ bs = cc in rw (← same) (refl, tt) }
each-Allows P check (v ∷ vs) h =
    followed_by-Allows P (length vs) (check v) (each check vs) (h v) (each-Allows P check vs h)

-- The reminder days that may be set: 1 to 10 of them, each from 1 to 3650.
abbrev pub AreDays : Option (List ℕ) → Type 0
AreDays none = Unit
AreDays (some days) = IsWithin 1 (some 10) (length days) × All (IsWithin 1 (some 3650)) days

pub days-Allows :
    (v : Value) → Allows AreDays (optional (array_between 1 10 (number_between 1 3650)) v)
days-Allows undefined = record { at = λ a e. let same : none ≡ a = cc in rw (← same) tt }
days-Allows null = record { at = λ a e. cc }
days-Allows (boolean b) = record { at = λ a e. cc }
days-Allows (integer n) = record { at = λ a e. cc }
days-Allows fraction = record { at = λ a e. cc }
days-Allows (text s) = record { at = λ a e. cc }
days-Allows (object ps) = record { at = λ a e. cc }
days-Allows (array vs) = go (length (elements vs)) (each (number_between 1 3650) (elements vs)) (
    each-Allows (IsWithin 1 (some 3650)) (number_between 1 3650) (elements vs)
      (λ v. within-Allows 1 (some 3650) (integer_of v)))
  where
    go :
        (n : ℕ) (r : Checked (List ℕ))
        → Allows (IsEach (IsWithin 1 (some 3650)) n) r
        → Allows AreDays (
            present
              (if ltb n 1 then refused too_small else if ltb 10 n then refused too_big else r))
    go n (refused issue) h = elim (Bool-cases (ltb n 1)) [
      | inl few ↦ rw few (record { at = λ a e. cc })
      | inr some_days ↦ elim (Bool-cases (ltb 10 n)) [
        | inl many ↦ rw (some_days, many) (record { at = λ a e. cc })
        | inr fit ↦ rw (some_days, fit) (record { at = λ a e. cc })
      ]
    ]
    go n (fine days) h = elim (Bool-cases (ltb n 1)) [
      | inl few ↦ rw few (record { at = λ a e. cc })
      | inr some_days ↦ elim (Bool-cases (ltb 10 n)) [
        | inl many ↦ rw (some_days, many) (record { at = λ a e. cc })
        | inr fit ↦
            let (counted, all) = h.at days refl in
            let bounds : IsWithin 1 (some 10) (length days) =
              ground (arith, some_days, fit, counted) in
            rw (some_days, fit)
              (record { at = λ a e. let same : some days ≡ a = cc in rw (← same) (bounds, all) })
      ]
    ]
