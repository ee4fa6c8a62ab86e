-- ===== src/Base/Machine.antt =====
-- Actions of code that changes a world and may raise; what it did before a raise stays done. The world
-- and the exceptions are parameters.
pub mod Ensures
pub mod Keeps
pub mod Ran
use mathlib.Core.Path.{◌≡◌, refl, ap}
use mathlib.Core.Bool.{Bool, true, false}
use mathlib.Core.Option.{Option, none, some}
use zkdeal_cloud_deployer_in.Base.Tests.{if◌then◌else◌}
use zkdeal_cloud_deployer_in.Base.Outcome.{Outcome, err, err-ne-ok, ok, ok_injective}

abbrev pub Action : Type 0 → Type 0 → Type 0 → Type 0
Action E W A = W → Outcome E A × W

module _ {E W A : Type 0} where
  unfoldable pub pure : A → Action E W A
  pure a w = (ok a, w)

  unfoldable pub raise : E → Action E W A
  raise e w = (err e, w)

  unfoldable pub lift : Outcome E A → Action E W A
  lift r w = (r, w)

  unfoldable pub gets : (W → A) → Action E W A
  gets f w = (ok (f w), w)

  unfoldable pub or_raise : Option A → E → Action E W A
  or_raise none fault w = (err fault, w)
  or_raise (some a) fault w = (ok a, w)

module _ {E W : Type 0} where
  -- `if not test: raise fault`
  unfoldable pub require : Bool → E → Action E W (Unit {0})
  require test fault w = (if test then ok tt else err fault, w)

  unfoldable pub modify : (W → W) → Action E W (Unit {0})
  modify f w = (ok tt, f w)

infixl 5 ◌>>=◌ ◌>>◌
module _ {E W A B : Type 0} where
  abbrev pub continue : Outcome E A → (A → Action E W B) → Action E W B
  continue (ok a) f w = f a w
  continue (err e) f w = (err e, w)

  -- Opening this opens the actions above too.
  unfoldable pub ◌>>=◌ : Action E W A → (A → Action E W B) → Action E W B
  unfolding pure raise lift gets or_raise require modify
  ◌>>=◌ m f w = continue (m w).0 f (m w).1

abbrev pub ◌>>◌ : {E W A B : Type 0} → Action E W A → Action E W B → Action E W B
m >> k = m >>= λ _. k

-- What a returned value of `m >>= f` says of its two parts.
pub record Passed {E W A B : Type 0} (m : Action E W A) (f : A → Action E W B) (w : W) (b : B)
    : Type 0 where
  pub value : A
  pub first : (m w).0 ≡ ok value
  pub second : (f value (m w).1).0 ≡ ok b
  pub world : (m >>= f) w ≡ f value (m w).1

continue_passed :
    {E W A B : Type 0} (r : Outcome E A) (f : A → Action E W B) (w : W) (b : B)
    → (continue r f w).0 ≡ ok b
    → (a : A) × (r ≡ ok a) × ((f a w).0 ≡ ok b) × (continue r f w ≡ f a w)
continue_passed (ok a) f w b h = (a, refl, h, refl)
continue_passed (err e) f w b h = absurd (err-ne-ok h)

pub bind-Passed :
    {E W A B : Type 0} (m : Action E W A) (f : A → Action E W B) (w : W) (b : B)
    → ((m >>= f) w).0 ≡ ok b
    → Passed m f w b
unfolding ◌>>=◌
bind-Passed m f w b h =
    let (a, p, q, e) = continue_passed (m w).0 f (m w).1 b h in
    record { value = a; first = p; second = q; world = e }

-- A test may stop what follows, which is all that it does.
pub require_cases :
    {E W A : Type 0} (test : Bool) (fault : E) (k : Action E W A) (w : W)
    (Q : Outcome E A × W → Type 0)
    → Q (err fault, w)
    → (test ≡ true → Q (k w))
    → Q ((require test fault >> k) w)
unfolding ◌>>=◌
require_cases false fault k w Q stopped passed = stopped
require_cases true fault k w Q stopped passed = passed refl

pub lift_cases :
    {E W A B : Type 0} (r : Outcome E A) (f : A → Action E W B) (w : W)
    (Q : Outcome E B × W → Type 0)
    → ((e : E) → Q (err e, w))
    → ((a : A) → r ≡ ok a → Q (f a w))
    → Q ((lift r >>= f) w)
unfolding ◌>>=◌
lift_cases (ok a) f w Q stopped passed = passed a refl
lift_cases (err e) f w Q stopped passed = stopped e

-- What only reads the result that came leaves the world as it is.
unfoldable pub map_result : {E A B : Type 0} → (A → B) → Outcome E A → Outcome E B
map_result g (ok a) = ok (g a)
map_result g (err e) = err e

continue-pure :
    {E W A B : Type 0} (r : Outcome E A) (g : A → B) (w : W)
    → continue r (λ a. pure (g a)) w ≡ (map_result g r, w)
unfolding map_result pure
continue-pure (ok a) g w = refl
continue-pure (err e) g w = refl

pub bind-pure :
    {E W A B : Type 0} (m : Action E W A) (g : A → B) (w : W)
    → ((m >>= λ a. pure (g a)) w) ≡ (map_result g (m w).0, (m w).1)
unfolding ◌>>=◌
bind-pure m g w = continue-pure (m w).0 g (m w).1

pub map_result-ok :
    {E A B : Type 0} (g : A → B) (r : Outcome E A) (b : B)
    → map_result g r ≡ ok b
    → (a : A) × (r ≡ ok a) × (g a ≡ b)
unfolding map_result
map_result-ok g (ok a) b h = (a, refl, ok_injective h)
map_result-ok g (err e) b h = absurd (err-ne-ok h)

pub require_passed :
    {E W : Type 0} (test : Bool) (fault : E) (w : W) (u : Unit {0})
    → (require test fault w).0 ≡ ok u
    → test ≡ true
unfolding require
require_passed false fault w u h = absurd (err-ne-ok h)
require_passed true fault w u h = refl

-- An action that is known to return is followed by the rest.
pub bind-ok :
    {E W A B : Type 0} (m : Action E W A) (f : A → Action E W B) (w after : W) (a : A)
    → m w ≡ (ok a, after)
    → (m >>= f) w ≡ f a after
unfolding ◌>>=◌
bind-ok m f w after a h = ap (λ r. continue r.0 f r.1) h
