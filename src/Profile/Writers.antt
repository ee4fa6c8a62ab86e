-- ===== src/Profile/Writers.antt =====
-- scripts/common.py: the fencing that a profile without errors has.
use zkdeal_cloud_deployer_in.Base.{
  Bool, Bool-cases, List, Option, String, [], arith, eq_iff, false, false-ne-true, if◌then◌else◌,
  inl, inr, ltb, none, not, refl, some, subst, true, ℕ, ◌&&◌, ◌++◌, ◌==◌, ◌||◌, ◌∷◌, ◌≡◌, ◌≤◌,
}
use zkdeal_cloud_deployer_in.Base.Lists.{contains}
use zkdeal_cloud_deployer_in.Base.Json.{Fields}
use zkdeal_cloud_deployer_in.Profile.Model.{
  CheckResult, Problem, filesystem_fencing, filesystem_replicas, flag, section, unfenced_replicas,
}
use zkdeal_cloud_deployer_in.Profile.Policy.{
  authoritative, each_service, fenced_by_owner, is_text, policy_problems, replicas,
  storage_problems, validate_profile,
}
use zkdeal_cloud_deployer_in.Profile.Flags.{
  and_false, append_none, cons-ne-nil, flag_then, not-false,
}

-- No problem for any service means that no service fails the test.
each_none :
    (profile : Fields) (test : String → Bool) (problem : String → Problem) (services : List String)
    → each_service profile test problem services ≡ []
    → (name : String) → contains services name ≡ true
    → test name ≡ false
unfolding each_service
each_none profile test problem [] e name h = absurd (false-ne-true h)
each_none profile test problem (first ∷ rest) e name h =
    let (passes, others) = flag_then _ _ _ e in
    elim (Bool-cases (first == name)) [
      | inl same ↦ subst (λ s. test s ≡ false) ((eq_iff first name).0 same) passes
      | inr other ↦
          each_none profile test problem rest others name
            (subst (λ b. (b || contains rest name) ≡ true) other h)
    ]

-- A service has several replicas only with storage that is no file system, under its owner's fencing.
abbrev pub FencedService : Fields → String → Type 0
FencedService profile name =
    2 ≤ replicas profile name
    → (is_text (section profile "storage") "backend" "filesystem" ≡ false)
      × (fenced_by_owner profile ≡ true)

one_replica : (n : ℕ) → ltb 1 n ≡ false → 2 ≤ n → ⊥
one_replica n e h = ground arith

several : (n : ℕ) → 2 ≤ n → ltb 1 n ≡ true
several n h = ground arith

backend_kept :
    (profile : Fields) (b : Bool)
    → is_text (section profile "storage") "backend" "filesystem" ≡ b
    → (if b
        then each_service profile
            (λ name. ltb 1 (replicas profile name))
            filesystem_replicas
            (authoritative profile)
          ++ flag
              (not (is_text (section profile "availability") "fencing" "none"))
              filesystem_fencing
        else each_service profile
            (λ name. ltb 1 (replicas profile name) && not (fenced_by_owner profile))
            unfenced_replicas
            (authoritative profile))
      ≡ []
    → (name : String) → contains (authoritative profile) name ≡ true
    → FencedService profile name
backend_kept profile true q e name h several_replicas =
    absurd (one_replica _ (each_none profile _ _ _ (append_none _ _ e).0 name h) several_replicas)
backend_kept profile false q e name h several_replicas =
    (q, not-false _ (and_false _ _ (each_none profile _ _ _ e name h) (several _ several_replicas)))

storage_kept :
    (profile : Fields)
    → storage_problems profile ≡ []
    → (name : String) → contains (authoritative profile) name ≡ true
    → FencedService profile name
unfolding storage_problems
storage_kept profile e = backend_kept profile _ refl (flag_then _ _ _ e).1

errors_kept :
    (profile : Fields) (schema : List Problem) (manifest : Option Fields)
    (artifacts : Option CheckResult)
    → (validate_profile profile schema manifest artifacts).errors ≡ []
    → policy_problems profile ≡ []
unfolding validate_profile
errors_kept profile (problem ∷ rest) manifest artifacts e = absurd (cons-ne-nil e)
errors_kept profile [] manifest none e = (append_none _ _ e).0
errors_kept profile [] manifest (some found) e = (append_none _ _ (append_none _ _ e).0).0

-- In a profile in which `validate_profile` finds no error, whatever its environment, the coordinator
-- and an enabled queue have two or more replicas only if the storage is no file system and the
-- fencing is the owner service's.
pub validate_profile-FencedService :
    (profile : Fields) (schema : List Problem) (manifest : Option Fields)
    (artifacts : Option CheckResult) (name : String)
    → (validate_profile profile schema manifest artifacts).errors ≡ []
    → contains (authoritative profile) name ≡ true
    → 2 ≤ replicas profile name
    → (is_text (section profile "storage") "backend" "filesystem" ≡ false)
      × (fenced_by_owner profile ≡ true)
unfolding policy_problems
validate_profile-FencedService profile schema manifest artifacts name e h several_replicas =
    let (keys, e1) = append_none _ _ (errors_kept profile schema manifest artifacts e) in
    let (exposure, e2) = append_none _ _ e1 in
    storage_kept profile (append_none _ _ e2).0 name h several_replicas
