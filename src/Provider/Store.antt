-- ===== src/Provider/Store.antt =====
-- The operations dictionary of failover-provider/provider.py: `state["operations"]`.
use zkdeal_cloud_deployer_in.Base.{
  Bool, Bool-cases, Option, String, [], ap, eq_iff, eq_refl, false, if◌then◌else◌, inl, inr, none,
  some, subst, true, ◌==◌, ◌∷◌, ◌≡◌,
}
use zkdeal_cloud_deployer_in.Base.Json.{Json, float, scalar_text, str}
use zkdeal_cloud_deployer_in.Provider.Model.{Key, Operation, Operations, named, numbered}

-- Whether two keys are one key of a Python dictionary.
abbrev pub key_eq : Key → Key → Bool
key_eq (named a) (named b) = a == b
key_eq (numbered a) (numbered b) = a == b
key_eq _ _ = false

pub key_eq_refl : (k : Key) → key_eq k k ≡ true
key_eq_refl (named a) = eq_refl a
key_eq_refl (numbered a) = eq_refl a

pub key_eq→eq : (k j : Key) → key_eq k j ≡ true → k ≡ j
key_eq→eq (named a) (named b) h = ap named ((eq_iff a b).0 h)
key_eq→eq (numbered a) (numbered b) h = ap numbered ((eq_iff a b).0 h)
key_eq→eq (named a) (numbered b) h = cc
key_eq→eq (numbered a) (named b) h = cc

-- The text of a float less its final `.0`: a whole float is the same key as the integer.
unfoldable pub strip_fraction : String → String
strip_fraction String.[] = ""
strip_fraction (String.◌∷◌ c s) =
    if s == ".0" then String.◌∷◌ c "" else String.◌∷◌ c (strip_fraction s)

-- The dictionary key of a scalar that passes for an identifier.
unfoldable pub scalar_key : Json → Option Key
unfolding strip_fraction scalar_text
scalar_key (str s) = some (named s)
scalar_key (float s) = some (numbered (strip_fraction s))
scalar_key value = elim (scalar_text value) [ none ↦ none | some s ↦ some (numbered s) ]

unfoldable pub find : Key → Operations → Option Operation
find k [] = none
find k ((j, operation) ∷ rest) = if key_eq k j then some operation else find k rest

-- `operations[key] = operation`
unfoldable pub store : Key → Operation → Operations → Operations
store k new [] = (k, new) ∷ []
store k new ((j, operation) ∷ rest) =
    if key_eq k j then (j, new) ∷ rest else (j, operation) ∷ store k new rest

pub find-store_self : (k : Key) (o : Operation) (l : Operations) → find k (store k o l) ≡ some o
unfolding find store
find-store_self k o [] = rw (key_eq_refl k)
find-store_self k o ((j, p) ∷ rest) = elim (Bool-cases (key_eq k j)) [
  | inl same ↦ rw same (rw same)
  | inr other ↦ rw other (rw other (find-store_self k o rest))
]

pub find-store_ne :
    (k j : Key) (o : Operation) (l : Operations)
    → key_eq j k ≡ false
    → find j (store k o l) ≡ find j l
unfolding find store
find-store_ne k j o [] h = rw h
find-store_ne k j o ((i, p) ∷ rest) h = elim (Bool-cases (key_eq k i)) [
  | inl same ↦ rw same (rw (subst (λ t. key_eq j t ≡ false) (key_eq→eq k i same) h))
  | inr other ↦ rw other (ap (λ t. if key_eq j i then some p else t) (find-store_ne k j o rest h))
]

pub find-store :
    (k j : Key) (o : Operation) (l : Operations)
    → find j (store k o l) ≡ (if key_eq j k then some o else find j l)
find-store k j o l = elim (Bool-cases (key_eq j k)) [
  | inl same ↦ rw same (rw (key_eq→eq j k same) (find-store_self k o l))
  | inr other ↦ rw other (find-store_ne k j o l other)
]
