-- ===== src/Base/Options.antt =====
-- Options in do blocks, and what holds of their results.
use mathlib.Core.Path.{◌≡◌, refl}
use mathlib.Core.Bool.{Bool, true, false}
use mathlib.Core.Option.{Option, none, some}

-- For do blocks on options.
infixl 5 ◌>>=◌
abbrev pub ◌>>=◌ {ℓ κ} : {A : Type ℓ} {B : Type κ} → Option A → (A → Option B) → Option B
none >>= f = none
some a >>= f = f a

abbrev pub guard : Bool → Option (Unit {0})
guard true = some tt
guard false = none

-- What is found, if anything, satisfies the predicate.
abbrev pub Holds : {A : Type 0} → (A → Type 0) → Option A → Type 0
Holds P none = Unit
Holds P (some a) = P a

pub bind-Holds :
    {A B : Type 0} (P : B → Type 0) (o : Option A) (f : A → Option B)
    → ((a : A) → o ≡ some a → Holds P (f a))
    → Holds P (o >>= f)
bind-Holds P none f h = tt
bind-Holds P (some a) f h = h a refl

pub bind_with :
    {A B : Type 0} (Q : A → Type 0) (P : B → Type 0) (o : Option A) (f : A → Option B)
    → Holds Q o
    → ((a : A) → Q a → Holds P (f a))
    → Holds P (o >>= f)
bind_with Q P none f q h = tt
bind_with Q P (some a) f q h = h a q

pub Holds-at : {A : Type 0} (P : A → Type 0) (o : Option A) (a : A) → o ≡ some a → Holds P o → P a
Holds-at P o a e h = rw e at h

pub Holds-weaken :
    {A : Type 0} (Q P : A → Type 0) (o : Option A) → Holds Q o → ((a : A) → Q a → P a) → Holds P o
Holds-weaken Q P none q h = tt
Holds-weaken Q P (some a) q h = h a q

pub guard-true : (b : Bool) (u : Unit {0}) → guard b ≡ some u → b ≡ true
guard-true true u h = refl
guard-true false u h = cc
