-- ===== src/Provider/Ensures.antt =====
-- Rules for what holds after a method of the provider returns, and for methods that only test.
use zkdeal_cloud_deployer_in.Base.{
  Bool, Option, ap, if◌then◌else◌, none, refl, some, subst, sym, true, ◌≡◌,
}
use zkdeal_cloud_deployer_in.Provider.Model.{
  Action, Fault, Operations, Result, World, continue, err, gets, ok, or_missing, pure, raise,
  require, ◌>>=◌,
}
use zkdeal_cloud_deployer_in.Provider.Rules.{Leaves, err-ne-ok, ok_injective, require-result}

-- From a world with `P`, whenever `m` returns `a`, its final world has `Q a`.
pub record Ensures {ℓ} {A : Type ℓ} (P : World → Type 0) (Q : A → World → Type 0) (m : Action A)
    : Type ℓ where
  pub at : (w : World) → P w → (a : A) → (m w).0 ≡ ok a → Q a (m w).1

module _ {ℓ κ} {A : Type ℓ} {B : Type κ} {R : A → World → Type 0} {Q : B → World → Type 0} where
  continue-Ensures :
      (f : A → Action B)
      → ((a : A) → Ensures (R a) Q (f a))
      → (r : Result A) (w : World) → ((a : A) → r ≡ ok a → R a w)
      → (b : B) → (continue r f w).0 ≡ ok b
      → Q b (continue r f w).1
  continue-Ensures f kf (ok a) w kr b h = (kf a).at w (kr a refl) b h
  continue-Ensures f kf (err e) w kr b h = absurd (err-ne-ok h)

  pub Ensures-bind :
      {P : World → Type 0} (m : Action A) (f : A → Action B)
      → Ensures P R m
      → ((a : A) → Ensures (R a) Q (f a))
      → Ensures P Q (m >>= f)
  unfolding ◌>>=◌
  Ensures-bind m f km kf = record {
    at = λ w p b h. continue-Ensures f kf (m w).0 (m w).1 (km.at w p) b h;
  }

module _ {ℓ} {A : Type ℓ} where
  pub Ensures-Leaves :
      {I : Operations → Type 0} {m : Action A}
      → Leaves I m
      → Ensures (λ w. I w.operations) (λ a w. I w.operations) m
  Ensures-Leaves km = record { at = λ w p a h. km.at w p }

  pub Ensures-pure :
      {P : World → Type 0} {Q : A → World → Type 0} (a : A)
      → ((w : World) → P w → Q a w)
      → Ensures P Q (pure a)
  unfolding pure
  Ensures-pure {Q} a k = record { at = λ w p b h. subst (λ c. Q c w) (ok_injective h) (k w p) }

pub Ensures-or_missing :
    {A : Type 0} {P : World → Type 0} (o : Option A) (fault : Fault)
    → Ensures P (λ a w. P w × (o ≡ some a)) (or_missing o fault)
unfolding or_missing
Ensures-or_missing none fault = record { at = λ w p a h. absurd (err-ne-ok h) }
Ensures-or_missing (some b) fault = record { at = λ w p a h. (p, ap some (ok_injective h)) }

pub Ensures-gets :
    {A : Type 0} {P : World → Type 0} (f : World → A) → Ensures P (λ a w. P w × (a ≡ f w)) (gets f)
unfolding gets
Ensures-gets f = record { at = λ w p a h. (p, sym (ok_injective h)) }

pub Ensures-require :
    {P : World → Type 0} (test : Bool) (fault : Fault)
    → Ensures P (λ u w. P w × (test ≡ true)) (require test fault)
unfolding require
Ensures-require test fault = record { at = λ w p u h. (p, require-result test fault u h) }

-- A method that reads and changes nothing: its outcome is the same in every world.
pub record OnlyTests {ℓ} {A : Type ℓ} (m : Action A) : Type ℓ where
  pub result : Result A
  pub at : (w : World) → m w ≡ (result, w)

module _ {ℓ κ} {A : Type ℓ} {B : Type κ} where
  continue-OnlyTests :
      (f : A → Action B) → ((a : A) → OnlyTests (f a)) → (r : Result A) → OnlyTests (continue r f)
  continue-OnlyTests f kf (ok a) = kf a
  continue-OnlyTests f kf (err e) = record { result = err e; at = λ w. refl }

  pub OnlyTests-bind :
      (m : Action A) (f : A → Action B)
      → OnlyTests m
      → ((a : A) → OnlyTests (f a))
      → OnlyTests (m >>= f)
  unfolding ◌>>=◌
  OnlyTests-bind m f km kf = record {
    result = (continue-OnlyTests f kf km.result).result;
    at = λ w. rw (km.at w) ((continue-OnlyTests f kf km.result).at w);
  }

pub OnlyTests-require : (test : Bool) (fault : Fault) → OnlyTests (require test fault)
unfolding require
OnlyTests-require test fault = record { result = if test then ok tt else err fault; at = λ w. refl }

module _ {ℓ} {A : Type ℓ} where
  pub OnlyTests-or_missing : (o : Option A) (fault : Fault) → OnlyTests (or_missing o fault)
  unfolding or_missing
  OnlyTests-or_missing none fault = record { result = err fault; at = λ w. refl }
  OnlyTests-or_missing (some a) fault = record { result = ok a; at = λ w. refl }

  pub OnlyTests-pure : (a : A) → OnlyTests (pure a)
  unfolding pure
  OnlyTests-pure a = record { result = ok a; at = λ w. refl }

  pub OnlyTests-raise : (e : Fault) → OnlyTests (raise {A = A} e)
  unfolding raise
  OnlyTests-raise e = record { result = err e; at = λ w. refl }

pub ruleset only_tests =
    (OnlyTests-bind, OnlyTests-require, OnlyTests-or_missing, OnlyTests-pure, OnlyTests-raise)
