-- ===== src/Profile/Hardened.antt =====
-- scripts/common.py: what a production profile without errors is known to have.
use zkdeal_cloud_deployer_in.Base.{
  List, Option, String, [], ap, eq_iff, false, false-ne-true, if◌then◌else◌, nat_eq→eq, none, some,
  subst, true, ◌∷◌, ◌≡◌, ◌≤◌,
}
use zkdeal_cloud_deployer_in.Base.Lists.{All, distinct}
use zkdeal_cloud_deployer_in.Base.Json.{
  Fields, Json, arr, bool, eq_str, float, get, int, is_true, null, obj, str,
}
use zkdeal_cloud_deployer_in.Profile.Model.{
  CheckResult, Problem, number, section, single_instance_size, single_region_size,
}
use zkdeal_cloud_deployer_in.Profile.Signers.{addresses, boundaries}
use zkdeal_cloud_deployer_in.Profile.Policy.{
  availability_problems, exposure_problems, external_storage, fenced_by_owner, is_text,
  one_coordinator, policy_problems, production_problems, replicas, standby_problems,
  standby_replicas, validate_profile,
}
use zkdeal_cloud_deployer_in.Profile.Flags.{
  and_false, append_none, cons-ne-nil, either_false, flag_down, flag_then, ltb-false, not-false,
}
use zkdeal_cloud_deployer_in.Profile.Roles.{Isolated, signers_kept}

pub record Hardened (profile : Fields) : Type 0 where
  pub external : external_storage profile ≡ true
  pub fenced : fenced_by_owner profile ≡ true
  pub coordinators : 2 ≤ replicas profile "coordinator"
  pub standbys : 1 ≤ standby_replicas profile
  pub recovery : number (get (section profile "availability") "rtoMinutes") ≤ 5
  pub hot : number (get (section profile "storage") "hotRetentionDays") ≡ 30
  pub archive : 365 ≤ number (get (section profile "storage") "archiveRetentionDays")
  pub encrypted :
      is_true (get profile "publicExposure") ≡ true
      → is_text (section profile "security") "tlsMode" "disabled" ≡ false
  pub roles : Fields
  pub signer_roles : get (section profile "security") "signerRoles" ≡ obj roles
  pub boundaries_kept : All (Isolated roles) boundaries
  pub separate : distinct (addresses roles boundaries) ≡ true

-- The rules of the warm-standby mode.
standby_kept :
    (profile : Fields)
    → standby_problems profile ≡ []
    → (fenced_by_owner profile ≡ true)
      × (number (get (section profile "availability") "rtoMinutes") ≤ 5)
unfolding standby_problems
standby_kept profile e =
    let (storage, e1) = flag_then _ _ _ e in
    let (unfenced, e2) = flag_then _ _ _ e1 in
    let (size, e3) = flag_then _ _ _ e2 in (not-false _ unfenced, ltb-false _ _ (flag_down _ _ e3))

chosen :
    (mode : Json) (a b c : List Problem)
    → mode ≡ str "warm-standby"
    → (if eq_str mode "single-instance"
        then a
        else if eq_str mode "single-region"
        then b
        else if eq_str mode "warm-standby"
        then c
        else [])
      ≡ []
    → c ≡ []
chosen mode a b c e h =
    subst
      (λ v.
        (if eq_str v "single-instance"
          then a
          else if eq_str v "single-region"
          then b
          else if eq_str v "warm-standby"
          then c
          else [])
        ≡ [])
      e h

is_str : (value : Json) (s : String) → eq_str value s ≡ true → value ≡ str s
is_str (str t) s e = ap str ((eq_iff t s).0 e)
is_str null s e = absurd (false-ne-true e)
is_str (bool b) s e = absurd (false-ne-true e)
is_str (int z) s e = absurd (false-ne-true e)
is_str (float t) s e = absurd (false-ne-true e)
is_str (arr items) s e = absurd (false-ne-true e)
is_str (obj fields) s e = absurd (false-ne-true e)

mode_kept :
    (profile : Fields)
    → is_text (section profile "availability") "mode" "warm-standby" ≡ true
    → availability_problems profile ≡ []
    → standby_problems profile ≡ []
unfolding availability_problems
mode_kept profile warm e =
    let mode = get (section profile "availability") "mode" in
    chosen mode (one_coordinator profile single_instance_size)
      (one_coordinator profile single_region_size) (standby_problems profile)
      (is_str mode "warm-standby" warm) e

hardened :
    (profile : Fields)
    → exposure_problems profile ≡ []
    → availability_problems profile ≡ []
    → production_problems profile ≡ []
    → Hardened profile
unfolding exposure_problems production_problems
hardened profile exposure availability production =
    let (tls, x1) = flag_then _ _ _ exposure in
    let (mode, e1) = flag_then _ _ _ production in
    let (backend, e2) = flag_then _ _ _ e1 in
    let (dotenv, e3) = flag_then _ _ _ e2 in
    let (secret, e4) = flag_then _ _ _ e3 in
    let (tags, e5) = flag_then _ _ _ e4 in
    let (urls, e6) = flag_then _ _ _ e5 in
    let (placeholder, e7) = flag_then _ _ _ e6 in
    let (zeros, e8) = flag_then _ _ _ e7 in
    let (watched, e9) = flag_then _ _ _ e8 in
    let (size, e10) = flag_then _ _ _ e9 in
    let (retained, e11) = flag_then _ _ _ e10 in
    let (regions, e12) = flag_then _ _ _ e11 in
    let (standbys, coordinators) = either_false _ _ size in
    let (hot, archive) = either_false _ _ retained in
    let (fenced, recovery) =
      standby_kept profile (mode_kept profile (not-false _ mode) availability) in
    let (roles, is_roles, kept, separate) = signers_kept _ e12 in
    record {
      external = not-false _ backend;
      fenced = fenced;
      coordinators = ltb-false _ _ coordinators;
      standbys = ltb-false _ _ standbys;
      recovery = recovery;
      hot = nat_eq→eq _ _ (not-false _ hot);
      archive = ltb-false _ _ archive;
      encrypted = λ public. and_false _ _ tls public;
      roles = roles;
      signer_roles = is_roles;
      boundaries_kept = kept;
      separate = separate;
    }

policy_kept :
    (profile : Fields)
    → is_text profile "environment" "production" ≡ true
    → policy_problems profile ≡ []
    → Hardened profile
unfolding policy_problems
policy_kept profile production e =
    let (keys, e1) = append_none _ _ e in
    let (exposure, e2) = append_none _ _ e1 in
    let (storage, e3) = append_none _ _ e2 in
    let (availability, e4) = append_none _ _ e3 in
    hardened profile exposure availability
      (subst (λ b. (if b then production_problems profile else []) ≡ []) production e4)

-- A production profile in which `validate_profile` finds no error is hardened: it has external
-- storage fenced by its owner, at least two coordinators and a standby, a recovery objective of at
-- most five minutes, retention of 30 days and at least 365, encryption if it is exposed, and six
-- enabled signer roles, each over HTTPS for exactly its services, no two at one address.
pub validate_profile-Hardened :
    (profile : Fields) (schema : List Problem) (manifest : Option Fields)
    (artifacts : Option CheckResult)
    → is_text profile "environment" "production" ≡ true
    → (validate_profile profile schema manifest artifacts).errors ≡ []
    → Hardened profile
unfolding validate_profile
validate_profile-Hardened profile (problem ∷ rest) manifest artifacts production e =
    absurd (cons-ne-nil e)
validate_profile-Hardened profile [] manifest none production e =
    policy_kept profile production (append_none _ _ e).0
validate_profile-Hardened profile [] manifest (some found) production e =
    policy_kept profile production (append_none _ _ (append_none _ _ e).0).0
