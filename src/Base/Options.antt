-- ===== src/Base/Options.antt =====
-- `Option` for code that raises one exception: sequencing, a guard, and the inversion of a step.
use mathlib.Core.Path.{◌≡◌, refl}
use mathlib.Core.Bool.{Bool, true, false}
use mathlib.Core.Option.{Option, none, some}
use native.Mathlib.Omega.{arith}

infixl 5 ◌>>=◌ ◌>>◌
abbrev pub ◌>>=◌ {ℓ κ} : {A : Type ℓ} {B : Type κ} → Option A → (A → Option B) → Option B
none >>= f = none
some a >>= f = f a

abbrev pub ◌>>◌ {ℓ} : {B : Type ℓ} → Option (Unit {0}) → Option B → Option B
m >> k = m >>= λ _. k

abbrev pub guard : Bool → Option (Unit {0})
guard true = some tt
guard false = none

pub >>=-some {ℓ κ} :
    {A : Type ℓ} {B : Type κ} (m : Option A) (f : A → Option B) (b : B)
    → (m >>= f) ≡ some b
    → (a : A) × (m ≡ some a) × (f a ≡ some b)
>>=-some none f b h = absurd (ground arith)
>>=-some (some a) f b h = (a, refl, h)

pub guard-some : (p : Bool) (u : Unit {0}) → guard p ≡ some u → p ≡ true
guard-some true u h = refl
guard-some false u h = absurd (ground arith)

-- What holds of an error and of all results of the next step holds of the sequence.
pub >>=-holds {ℓ κ} :
    {A : Type ℓ} {B : Type ℓ} (P : Option B → Type κ) (m : Option A) (f : A → Option B)
    → P none
    → ((a : A) → m ≡ some a → P (f a))
    → P (m >>= f)
>>=-holds P none f fail next = fail
>>=-holds P (some a) f fail next = next a refl
