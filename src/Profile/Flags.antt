-- ===== src/Profile/Flags.antt =====
-- scripts/common.py: lists of errors that are empty, and the tests that they stand for.
use zkdeal_cloud_deployer_in.Base.{
  Bool, List, [], arith, false, ltb, not, refl, true, ℕ, ◌&&◌, ◌++◌, ◌||◌, ◌∷◌, ◌≡◌, ◌≤◌,
}
use zkdeal_cloud_deployer_in.Profile.Model.{Problem, flag}

pub cons-ne-nil {ℓ} : {A : Type ℓ} {x : A} {xs : List A} → x ∷ xs ≡ [] → ⊥
cons-ne-nil e = cc

pub append_none {ℓ} : {A : Type ℓ} (xs ys : List A) → xs ++ ys ≡ [] → (xs ≡ []) × (ys ≡ [])
append_none [] ys e = (refl, e)
append_none (x ∷ xs) ys e = absurd (cons-ne-nil e)

pub flag_down : (b : Bool) (problem : Problem) → flag b problem ≡ [] → b ≡ false
unfolding flag
flag_down false problem e = refl
flag_down true problem e = absurd (cons-ne-nil e)

pub flag_then :
    (b : Bool) (problem : Problem) (rest : List Problem)
    → flag b problem ++ rest ≡ []
    → (b ≡ false) × (rest ≡ [])
flag_then b problem rest e =
    let (down, none_left) = append_none (flag b problem) rest e in
    (flag_down b problem down, none_left)

pub not-false : (b : Bool) → not b ≡ false → b ≡ true
not-false b e = ground arith

pub either_false : (a b : Bool) → (a || b) ≡ false → (a ≡ false) × (b ≡ false)
either_false a b e = ground arith

pub and_false : (a b : Bool) → (a && b) ≡ false → a ≡ true → b ≡ false
and_false a b e h = ground arith

pub ltb-false : (a b : ℕ) → ltb a b ≡ false → b ≤ a
ltb-false a b e = ground arith
