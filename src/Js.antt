-- ===== src/Js.antt =====
-- The values that the backend's TypeScript handles dynamically: thrown values and parsed JSON.
-- A thrown value may be anything; `error_object` is an instance of `Error` with its message and its other
-- properties, and `http` an instance of Nest's `HttpException` with the class, the constructor's
-- first argument and the cause. Numbers are natural, since the code only tests statuses and
-- versions; a missing property reads as `undefined`.
use climate_chain.Shared.{
  arith, ℕ, ◌==◌, String, Bool, true, false, not, Option, none, some, str_eq, ◌≡◌, refl, ◌⊎◌, inl,
  inr, if◌then◌else◌,
}

pub data ExceptionClass : Type 0 where
  bad_request unauthorized forbidden not_found conflict internal unavailable : ExceptionClass

mutual
  pub data Value : Type 0 where
    undefined null : Value
    bool : Bool → Value
    num : ℕ → Value
    str : String → Value
    arr : Items → Value
    obj : Fields → Value
    error_object : String → Fields → Value
    http : ExceptionClass → Value → Value → Value

  pub data Items : Type 0 where
    nil : Items
    cons : Value → Items → Items

  pub data Fields : Type 0 where
    end : Fields
    field : String → Value → Fields → Fields

abbrev pub field_of : String → Fields → Value
field_of k end = undefined
field_of k (field j v fs) = if str_eq j k then v else field_of k fs

-- `v.k`, on a value that is not `null` or `undefined`; and `v?.k` on those two.
abbrev pub prop : String → Value → Value
prop k (obj fs) = field_of k fs
prop k (error_object message fs) = if str_eq k "message" then str message else field_of k fs
prop k (http cls response cause) = if str_eq k "cause" then cause else undefined
prop k v = undefined

-- `typeof v === "string" ? v : undefined`
abbrev pub as_string : Value → Option String
as_string (str s) = some s
as_string v = none

abbrev pub as_number : Value → Option ℕ
as_number (num n) = some n
as_number v = none

-- `Boolean(v)`
abbrev pub is_truthy : Value → Bool
is_truthy undefined = false
is_truthy null = false
is_truthy (bool b) = b
is_truthy (num n) = not (n == 0)
is_truthy (str s) = not (str_eq s "")
is_truthy v = true

-- A whole number.
pub data ℤ : Type 0 where
  pos negsuc : ℕ → ℤ

-- What `Number(text)` gives: NaN or an infinity, a number that is not whole, or a whole number.
pub data Number : Type 0 where
  not_finite fraction : Number
  whole : ℤ → Number

-- What an `async` function gives: a value, or a thrown value.
pub data Result {ℓ} (A : Type ℓ) : Type ℓ where
  ok : A → Result A
  throw : Value → Result A

infixl 10 ◌>>=◌ ◌>>◌
abbrev pub ◌>>=◌ {ℓ κ} : {A : Type ℓ} {B : Type κ} → Result A → (A → Result B) → Result B
ok a >>= f = f a
throw e >>= f = throw e

abbrev pub ◌>>◌ {ℓ} : {B : Type ℓ} → Result (Unit {0}) → Result B → Result B
m >> k = m >>= λ _. k

pub Result-cases {ℓ} :
    {A : Type ℓ} (r : Result A) → ((a : A) × (r ≡ ok a)) ⊎ ((e : Value) × (r ≡ throw e))
Result-cases (ok a) = inl (a, refl)
Result-cases (throw e) = inr (e, refl)

-- A chain that gives a value went through its first step.
pub bind_ok {ℓ κ} :
    {A : Type ℓ} {B : Type κ} (m : Result A) (f : A → Result B) (b : B)
    → m >>= f ≡ ok b
    → (a : A) × (m ≡ ok a) × (f a ≡ ok b)
bind_ok (ok a) f b done = (a, refl, done)
bind_ok (throw e) f b done = let absurd : ⊥ = grind arith in elim absurd [ ]

pub ok_inj {ℓ} : {A : Type ℓ} {a b : A} → ok a ≡ ok b → a ≡ b
ok_inj same = grind arith

pub throw-ne-ok {ℓ} : {A : Type ℓ} {e : Value} {a : A} → throw e ≡ ok a → ⊥
throw-ne-ok same = grind arith
