-- ===== src/Provider/Rules.antt =====
-- Rules for the provider's methods: what a value that is returned satisfies (`Gives`), what becomes
-- of the operations (`Leaves`), and what a method adds to the history (`Grows`).
use zkdeal_cloud_deployer_in.Base.{
  Bool, Option, false, if◌then◌else◌, none, refl, some, subst, true, ◌≡◌,
}
use zkdeal_cloud_deployer_in.Provider.Model.{
  Action, Event, Fault, Operations, Result, World, continue, err, gets, note, ok, or_missing, pure,
  raise, require, save, when, ◌>>=◌, ◌>>◌,
}

-- Whenever `m` returns, its value satisfies `Q`.
pub record Gives {ℓ} {A : Type ℓ} (Q : A → Type 0) (m : Action A) : Type ℓ where
  pub at : (w : World) (a : A) → (m w).0 ≡ ok a → Q a

-- Whatever the outcome, `m` keeps `I` of the operations.
pub record Leaves {ℓ} {A : Type ℓ} (I : Operations → Type 0) (m : Action A) : Type ℓ where
  pub at : (w : World) → I w.operations → I (m w).1.operations

module _ {ℓ} {A : Type ℓ} where
  pub ok_injective : {a b : A} → ok a ≡ ok b → a ≡ b
  ok_injective h = cc

  pub err-ne-ok : {e : Fault} {a : A} → err e ≡ ok a → ⊥
  err-ne-ok h = cc

module _ {ℓ κ} {A : Type ℓ} {B : Type κ} {R : A → Type 0} {Q : B → Type 0} where
  continue-Gives :
      (f : A → Action B)
      → ((a : A) → R a → Gives Q (f a))
      → (r : Result A) (w : World) → ((a : A) → r ≡ ok a → R a)
      → (b : B) → (continue r f w).0 ≡ ok b
      → Q b
  continue-Gives f kf (ok a) w kr b h = (kf a (kr a refl)).at w b h
  continue-Gives f kf (err e) w kr b h = absurd (err-ne-ok h)

  pub Gives-bind :
      (m : Action A) (f : A → Action B)
      → Gives R m
      → ((a : A) → R a → Gives Q (f a))
      → Gives Q (m >>= f)
  unfolding ◌>>=◌
  Gives-bind m f km kf = record { at = λ w b h. continue-Gives f kf (m w).0 (m w).1 (km.at w) b h }

module _ {ℓ} {A : Type ℓ} where
  pub Gives-any : (m : Action A) → Gives (λ a. Unit {0}) m
  Gives-any m = record { at = λ w a h. tt }

  pub Gives-pure : {Q : A → Type 0} (a : A) → Q a → Gives Q (pure a)
  unfolding pure
  Gives-pure {Q} a q = record { at = λ w b h. subst Q (ok_injective h) q }

  pub Gives-raise : {Q : A → Type 0} (e : Fault) → Gives Q (raise {A = A} e)
  unfolding raise
  Gives-raise e = record { at = λ w b h. absurd (err-ne-ok h) }

module _ {ℓ κ} {A : Type ℓ} {B : Type κ} {Q : B → Type 0} where
  -- A step whose value does not matter.
  pub Gives-then : (m : Action A) (f : A → Action B) → ((a : A) → Gives Q (f a)) → Gives Q (m >>= f)
  Gives-then m f kf = Gives-bind m f (Gives-any m) (λ a u. kf a)

pub require-result :
    (b : Bool) (fault : Fault) (u : Unit {0}) → (if b then ok tt else err fault) ≡ ok u → b ≡ true
require-result true fault u h = refl
require-result false fault u h = absurd (err-ne-ok h)

-- What follows a passed test may use it.
pub Gives-require :
    (test : Bool) (fault : Fault) → Gives (λ (u : Unit {0}). test ≡ true) (require test fault)
unfolding require
Gives-require test fault = record { at = λ w u h. require-result test fault u h }

module _ {I : Operations → Type 0} where
  module _ {ℓ κ} {A : Type ℓ} {B : Type κ} where
    continue-Leaves :
        (f : A → Action B)
        → ((a : A) → Leaves I (f a))
        → (r : Result A) (w : World) → I w.operations
        → I (continue r f w).1.operations
    continue-Leaves f kf (ok a) w i = (kf a).at w i
    continue-Leaves f kf (err e) w i = i

    pub Leaves-bind :
        (m : Action A) (f : A → Action B)
        → Leaves I m
        → ((a : A) → Leaves I (f a))
        → Leaves I (m >>= f)
    unfolding ◌>>=◌
    Leaves-bind m f km kf = record { at = λ w i. continue-Leaves f kf (m w).0 (m w).1 (km.at w i) }

    pub Leaves-then : (m : Action A) (k : Action B) → Leaves I m → Leaves I k → Leaves I (m >> k)
    Leaves-then m k km kk = Leaves-bind m (λ a. k) km (λ a. kk)

  module _ {ℓ} {A : Type ℓ} where
    pub Leaves-pure : (a : A) → Leaves I (pure a)
    unfolding pure
    Leaves-pure a = record { at = λ w i. i }

    pub Leaves-raise : (e : Fault) → Leaves I (raise {A = A} e)
    unfolding raise
    Leaves-raise e = record { at = λ w i. i }

  module _ {ℓ} {A : Type ℓ} where
    pub Leaves-or_missing : (o : Option A) (fault : Fault) → Leaves I (or_missing o fault)
    unfolding or_missing
    Leaves-or_missing none fault = record { at = λ w i. i }
    Leaves-or_missing (some a) fault = record { at = λ w i. i }

  pub Leaves-require : (test : Bool) (fault : Fault) → Leaves I (require test fault)
  unfolding require
  Leaves-require test fault = record { at = λ w i. i }

  pub Leaves-note : (e : Event) → Leaves I (note e)
  unfolding note
  Leaves-note e = record { at = λ w i. i }

  pub Leaves-gets {ℓ} : {A : Type ℓ} (f : World → A) → Leaves I (gets f)
  unfolding gets
  Leaves-gets f = record { at = λ w i. i }

  pub Leaves-save : Leaves I save
  unfolding save
  Leaves-save = record { at = λ w i. i }

  pub Leaves-when : (test : Bool) (m : Action (Unit {0})) → Leaves I m → Leaves I (when test m)
  unfolding when
  Leaves-when true m km = record { at = km.at }
  Leaves-when false m km = record { at = λ w i. i }

pub ruleset leaves_rules = (
  Leaves-bind, Leaves-then, Leaves-pure, Leaves-raise, Leaves-require, Leaves-note, Leaves-when,
  Leaves-or_missing, Leaves-gets, Leaves-save,
)
