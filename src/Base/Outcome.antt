-- ===== src/Base/Outcome.antt =====
-- Results of code that may raise, with the exceptions as a parameter.
use mathlib.Core.Path.{◌≡◌, refl, subst}
use mathlib.Core.Bool.{Bool, true}
use mathlib.Core.Option.{Option, none, some}
use native.Mathlib.Omega.{arith}
use zkdeal_cloud_deployer_in.Base.Tests.{if◌then◌else◌}

pub data Outcome (E A : Type 0) : Type 0 where
  ok : A → Outcome E A
  err : E → Outcome E A

infixl 5 ◌>>=◌ ◌>>◌
unfoldable pub ◌>>=◌ : {E A B : Type 0} → Outcome E A → (A → Outcome E B) → Outcome E B
ok a >>= f = f a
err e >>= f = err e

abbrev pub ◌>>◌ : {E A B : Type 0} → Outcome E A → Outcome E B → Outcome E B
m >> k = m >>= λ _. k

-- `if not test: raise fault`
unfoldable pub check : {E : Type 0} → Bool → E → Outcome E (Unit {0})
check test fault = if test then ok tt else err fault

unfoldable pub some_or : {E A : Type 0} → Option A → E → Outcome E A
some_or none fault = err fault
some_or (some a) fault = ok a

module _ {E A : Type 0} where
  pub ok_injective : {a b : A} → ◌≡◌ {A = Outcome E A} (ok a) (ok b) → a ≡ b
  ok_injective h = cc

  pub err-ne-ok : {e : E} {a : A} → err e ≡ ok a → ⊥
  err-ne-ok h = cc

-- A value that is read through `m` comes from a value of `m`.
pub bind_first :
    {E A B : Type 0} (m : Outcome E A) (f : A → Outcome E B) (b : B)
    → (m >>= f) ≡ ok b
    → (a : A) × (m ≡ ok a) × (f a ≡ ok b)
unfolding ◌>>=◌
bind_first (ok a) f b h = (a, refl, h)
bind_first (err e) f b h = absurd (err-ne-ok h)

pub check_passed :
    {E : Type 0} (test : Bool) (fault : E) (u : Unit {0}) → check test fault ≡ ok u → test ≡ true
unfolding check
check_passed test fault u h = ground arith

pub some_or-some :
    {E A : Type 0} (o : Option A) (fault : E) (a : A) → some_or o fault ≡ ok a → o ≡ some a
unfolding some_or
some_or-some o fault a h = ground arith

-- What the value of a result satisfies, if there is one.
pub record Yields {E A : Type 0} (Q : A → Type 0) (m : Outcome E A) : Type 0 where
  pub at : (a : A) → m ≡ ok a → Q a

module _ {E A : Type 0} {Q : A → Type 0} where
  pub Yields-ok : (a : A) → Q a → Yields {E = E} Q (ok a)
  Yields-ok a q = record { at = λ b h. subst Q (ok_injective h) q }

pub Yields-bind :
    {E A B : Type 0} {Q : B → Type 0} (m : Outcome E A) (f : A → Outcome E B)
    → ((a : A) → m ≡ ok a → Yields Q (f a))
    → Yields Q (m >>= f)
Yields-bind m f yf = record {
  at = λ b h. let (a, first, second) = bind_first m f b h in (yf a first).at b second;
}
