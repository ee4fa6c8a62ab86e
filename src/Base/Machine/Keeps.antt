-- ===== src/Base/Machine/Keeps.antt =====
-- What actions keep of the world, whether they return or raise: one rule for each way to build one.
use mathlib.Core.Path.{◌≡◌, refl}
use mathlib.Core.Bool.{Bool}
use mathlib.Core.Option.{Option, none, some}
use zkdeal_cloud_deployer_in.Base.Machine.{
  Action, continue, gets, lift, or_raise, pure, raise, require, ◌>>=◌, ◌>>◌,
}
use zkdeal_cloud_deployer_in.Base.Outcome.{Outcome, err, ok}

pub record Keeps {E W A : Type 0} (P : W → Type 0) (m : Action E W A) : Type 0 where
  pub at : (w : W) → P w → P (m w).1

module _ {E W A B : Type 0} {P : W → Type 0} where
  continue-Keeps :
      (r : Outcome E A) (f : A → Action E W B)
      → ((a : A) → r ≡ ok a → Keeps P (f a))
      → (w : W) → P w
      → P (continue r f w).1
  continue-Keeps (ok a) f kf w p = (kf a refl).at w p
  continue-Keeps (err e) f kf w p = p

  pub Keeps-bind :
      (m : Action E W A) (f : A → Action E W B)
      → Keeps P m
      → ((a : A) → Keeps P (f a))
      → Keeps P (m >>= f)
  unfolding ◌>>=◌
  Keeps-bind m f km kf = record {
    at = λ w p. continue-Keeps (m w).0 f (λ a e. kf a) (m w).1 (km.at w p);
  }

  -- What follows a lifted result may use that it is one.
  pub Keeps-bind_lift :
      (r : Outcome E A) (f : A → Action E W B)
      → ((a : A) → r ≡ ok a → Keeps P (f a))
      → Keeps P (lift r >>= f)
  unfolding ◌>>=◌
  Keeps-bind_lift r f kf = record { at = λ w p. continue-Keeps r f kf w p }

  -- What follows a value that had to be there may use that it was.
  pub Keeps-bind_or_raise :
      (o : Option A) (fault : E) (f : A → Action E W B)
      → ((a : A) → o ≡ some a → Keeps P (f a))
      → Keeps P (or_raise o fault >>= f)
  unfolding ◌>>=◌ or_raise
  Keeps-bind_or_raise none fault f kf = record { at = λ w p. p }
  Keeps-bind_or_raise (some a) fault f kf = record { at = λ w p. (kf a refl).at w p }

  pub Keeps-then : (m : Action E W A) (k : Action E W B) → Keeps P m → Keeps P k → Keeps P (m >> k)
  Keeps-then m k km kk = Keeps-bind m (λ a. k) km (λ a. kk)

module _ {E W A : Type 0} {P : W → Type 0} where
  pub Keeps-pure : (a : A) → Keeps {E = E} P (pure a)
  unfolding pure
  Keeps-pure a = record { at = λ w p. p }

  pub Keeps-raise : (e : E) → Keeps P (raise {A = A} e)
  unfolding raise
  Keeps-raise e = record { at = λ w p. p }

  pub Keeps-lift : (r : Outcome E A) → Keeps P (lift r)
  unfolding lift
  Keeps-lift r = record { at = λ w p. p }

  pub Keeps-gets : (f : W → A) → Keeps {E = E} P (gets f)
  unfolding gets
  Keeps-gets f = record { at = λ w p. p }

  pub Keeps-or_raise : (o : Option A) (fault : E) → Keeps P (or_raise o fault)
  unfolding or_raise
  Keeps-or_raise none fault = record { at = λ w p. p }
  Keeps-or_raise (some a) fault = record { at = λ w p. p }

pub Keeps-require :
    {E W : Type 0} {P : W → Type 0} (test : Bool) (fault : E) → Keeps P (require test fault)
unfolding require
Keeps-require test fault = record { at = λ w p. p }

pub ruleset keeps_rules = (
  Keeps-bind, Keeps-then, Keeps-pure, Keeps-raise, Keeps-lift, Keeps-gets, Keeps-or_raise,
  Keeps-require,
)
