-- ===== src/Base/Outcome.antt =====
-- What a request or a service call ends with: a value, an HTTPException with its status code, or
-- any other exception.
use Prim.Native.Nat.{ℕ}
use mathlib.Core.Path.{◌≡◌, refl}
use mathlib.Core.Bool.{Bool, true, false}
use mathlib.Core.Option.{Option, none, some}

pub data Outcome {ℓ} (A : Type ℓ) : Type ℓ where
  ok : A → Outcome A
  http : ℕ → Outcome A
  raised : Outcome A

infixl 5 ◌>>=◌ ◌>>◌
abbrev pub ◌>>=◌ {ℓ κ} : {A : Type ℓ} {B : Type κ} → Outcome A → (A → Outcome B) → Outcome B
ok a >>= f = f a
http n >>= f = http n
raised >>= f = raised

abbrev pub ◌>>◌ {ℓ} : {B : Type ℓ} → Outcome (Unit {0}) → Outcome B → Outcome B
m >> k = m >>= λ _. k

-- if not test: raise HTTPException(status)
abbrev pub demand : Bool → ℕ → Outcome (Unit {0})
demand true status = ok tt
demand false status = http status

-- if value is None: raise HTTPException(status)
abbrev pub present {ℓ} : {A : Type ℓ} → Option A → ℕ → Outcome A
present (some a) status = ok a
present none status = http status

-- Inversion of a successful chain.
pub >>=-eq-ok {ℓ κ} :
    {A : Type ℓ} {B : Type κ} (first : Outcome A) (next : A → Outcome B) {end : B}
    → (first >>= next) ≡ ok end
    → (value : A) × (first ≡ ok value) × (next value ≡ ok end)
>>=-eq-ok (ok value) next h = (value, refl, h)
>>=-eq-ok (http status) next h = cc
>>=-eq-ok raised next h = cc

pub demand-eq-ok : (b : Bool) (n : ℕ) → demand b n ≡ ok tt → b ≡ true
demand-eq-ok true n h = refl
demand-eq-ok false n h = cc

pub present-eq-ok {ℓ} :
    {A : Type ℓ} (o : Option A) (n : ℕ) {a : A} → present o n ≡ ok a → o ≡ some a
present-eq-ok (some x) n h = cc
present-eq-ok none n h = cc

-- A loop of the model that ran out of fuel, or a None that the code would fail on.
abbrev pub or_raise {ℓ} : {A : Type ℓ} → Option A → Outcome A
or_raise (some a) = ok a
or_raise none = raised

pub or_raise-eq-ok {ℓ} : {A : Type ℓ} (o : Option A) {a : A} → or_raise o ≡ ok a → o ≡ some a
or_raise-eq-ok (some x) h = cc
or_raise-eq-ok none h = cc
