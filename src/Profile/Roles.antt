-- ===== src/Profile/Roles.antt =====
-- scripts/common.py: the signer roles of a production profile without errors.
use zkdeal_cloud_deployer_in.Base.{
  Bool, Bool-cases, List, Option, String, [], arith, false, if◌then◌else◌, inl, inr, nat_eq→eq,
  none, refl, some, subst, suc, true, ℕ, ◌∷◌, ◌≡◌, ◌≤◌,
}
use zkdeal_cloud_deployer_in.Base.Lists.{All, contains, distinct, length}
use zkdeal_cloud_deployer_in.Base.Json.{Fields, Json, arr, bool, float, get, int, null, obj, str}
use zkdeal_cloud_deployer_in.Profile.Model.{section, texts}
use zkdeal_cloud_deployer_in.Profile.Signers.{
  address_problems, addresses, as_set, boundaries, boundary_problems, enabled_role, https_address,
  role_problems, same_set, signer_problems,
}
use zkdeal_cloud_deployer_in.Profile.Flags.{append_none, cons-ne-nil, flag_down, not-false}

-- A role is enabled, has an address over HTTPS, and serves exactly the services of its boundary.
pub record Isolated (roles : Fields) (boundary : String × List String) : Type 0 where
  pub enabled : enabled_role (get roles boundary.0) ≡ true
  pub address : String
  pub has_address : https_address (get (section roles boundary.0) "address") ≡ some address
  pub isolated :
      same_set (texts (get (section roles boundary.0) "allowedServices")) boundary.1 ≡ true

length-as_set : (xs : List String) → length (as_set xs) ≤ length xs
length-as_set [] = omega arith
length-as_set (s ∷ rest) = elim (Bool-cases (contains rest s)) [
  | inl again ↦ rw again (omega (arith, length-as_set rest))
  | inr new ↦ rw new (omega (arith, length-as_set rest))
]

-- A list as long as its set has no value twice.
as_set-distinct : (xs : List String) → length xs ≡ length (as_set xs) → distinct xs ≡ true
as_set-distinct [] e = refl
as_set-distinct (s ∷ rest) e = elim (Bool-cases (contains rest s)) [
  | inl again ↦ absurd (
      too_long _ _
        (subst (λ b. suc (length rest) ≡ length (if b then as_set rest else s ∷ as_set rest)) again
          e)
        (length-as_set rest))
  | inr new ↦ rw new (
      as_set-distinct rest (
        same_length _ _ (
          subst (λ b. suc (length rest) ≡ length (if b then as_set rest else s ∷ as_set rest)) new
            e)))
]
  where
    too_long : (a b : ℕ) → suc a ≡ b → b ≤ a → ⊥
    too_long a b e h = omega arith

    same_length : (a b : ℕ) → suc a ≡ suc b → a ≡ b
    same_length a b e = omega arith

role_kept :
    (roles : Fields) (name : String) (required : List String) (b : Bool)
    → enabled_role (get roles name) ≡ b
    → role_problems b name required (section roles name) ≡ []
    → Isolated roles (name, required)
unfolding role_problems
role_kept roles name required false q e = absurd (cons-ne-nil e)
role_kept roles name required true q e =
    let (no_address, not_isolated) = append_none _ _ e in
    let (s, h) = address_kept (https_address (get (section roles name) "address")) no_address in
    record {
      enabled = q;
      address = s;
      has_address = h;
      isolated = not-false _ (flag_down _ _ not_isolated);
    }
  where
    address_kept : (o : Option String) → address_problems name o ≡ [] → (s : String) × (o ≡ some s)
    address_kept none e = absurd (cons-ne-nil e)
    address_kept (some s) e = (s, refl)

roles_kept :
    (roles : Fields) (bounds : List (String × List String))
    → boundary_problems roles bounds ≡ []
    → All (Isolated roles) bounds
unfolding boundary_problems
roles_kept roles [] e = tt
roles_kept roles ((name, required) ∷ rest) e =
    let (first, others) = append_none _ _ e in
    (role_kept roles name required _ refl first, roles_kept roles rest others)

-- What the signer roles are known to be.
abbrev pub SignersKept : Json → Type 0
SignersKept value =
    (roles : Fields) × (value ≡ obj roles)
    × All (Isolated roles) boundaries
    × (distinct (addresses roles boundaries) ≡ true)

pub signers_kept : (value : Json) → signer_problems value ≡ [] → SignersKept value
unfolding signer_problems
signers_kept (obj roles) e =
    let (kept, shared) = append_none _ _ e in
    (
      roles,
      refl,
      roles_kept roles boundaries kept,
      as_set-distinct _ (nat_eq→eq _ _ (not-false _ (flag_down _ _ shared))),
    )
signers_kept null e = absurd (cons-ne-nil e)
signers_kept (bool b) e = absurd (cons-ne-nil e)
signers_kept (int z) e = absurd (cons-ne-nil e)
signers_kept (float t) e = absurd (cons-ne-nil e)
signers_kept (str s) e = absurd (cons-ne-nil e)
signers_kept (arr items) e = absurd (cons-ne-nil e)
