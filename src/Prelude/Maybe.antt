-- ===== src/Prelude/Maybe.antt =====
-- Steps that may fault, in a `do` block.
use mathlib.Core.Path.{◌≡◌, refl, ap, ◌∙◌}
use mathlib.Core.Logic.{◌≢◌}
use mathlib.Core.Option.{Option, none, some}

infixl 5 ◌>>=◌
abbrev pub ◌>>=◌ {ℓ κ} : {A : Type ℓ} {B : Type κ} → Option A → (A → Option B) → Option B
none >>= f = none
some a >>= f = f a

-- What a chain of steps that succeeds has gone through.
pub >>=-eq-some {ℓ κ} :
    {A : Type ℓ} {B : Type κ} (m : Option A) (f : A → Option B) {b : B}
    → (m >>= f) ≡ some b
    → (a : A) × (m ≡ some a) × (f a ≡ some b)
>>=-eq-some none f e = cc
>>=-eq-some (some a) f e = (a, refl, e)

pub some-cancel {ℓ} : {A : Type ℓ} {a b : A} → some a ≡ some b → a ≡ b
some-cancel e = cc

-- A step that does not fault has a result.
pub some-of-≢ {ℓ} : {A : Type ℓ} (m : Option A) → m ≢ none → (a : A) × (m ≡ some a)
some-of-≢ none h = absurd (h refl)
some-of-≢ (some a) h = (a, refl)

-- A chain whose first step gives a result goes on with it.
pub >>=-some {ℓ κ} :
    {A : Type ℓ} {B : Type κ} {m : Option A} {a : A} (f : A → Option B) {b : Option B}
    → m ≡ some a
    → f a ≡ b
    → (m >>= f) ≡ b
>>=-some f e e' = ap (λ r. r >>= f) e ∙ e'

-- A fault ends the chain.
pub >>=-none {ℓ κ} :
    {A : Type ℓ} {B : Type κ} {m : Option A} (f : A → Option B) → m ≡ none → (m >>= f) ≡ none
>>=-none f e = ap (λ r. r >>= f) e
