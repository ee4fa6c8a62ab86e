-- ===== src/Profile/Policy.antt =====
-- scripts/common.py: `validate_profile` and `_image_policy`. What jsonschema and the file system answer
-- is given: the errors of the schema, the image manifest and the check of the artifacts.
use zkdeal_cloud_deployer_in.Base.{
  Bool, List, Option, String, [], false, if◌then◌else◌, ltb, nat_eq, none, not, some, true, ℕ, ◌&&◌,
  ◌++◌, ◌||◌, ◌∷◌,
}
use zkdeal_cloud_deployer_in.Base.Lists.{all_of, any_of, contains, length, skip_first}
use zkdeal_cloud_deployer_in.Base.Text.{begins, codes, is_lower_hex, occurs}
use zkdeal_cloud_deployer_in.Base.Json.{
  Fields, Json, end, eq_str, field, get, is_true, null, str, truthy,
}
use zkdeal_cloud_deployer_in.Profile.Model.{
  CheckResult, Problem, dotenv_secrets, fields_of, filesystem_fencing, filesystem_replicas, flag,
  known_keys, known_private_key, lower_is, malformed_digest, manifest_problem, missing_digest,
  multi_region, no_standby, number, one_rpc_url, placeholder_rpc_url, production_backend,
  production_mode, proxies_required, retention, secret_missing, section, single_instance_size,
  single_region_size, standalone_queue, standby_fencing, standby_recovery, standby_size,
  standby_storage, tag_overrides, texts, tls_required, unfenced_replicas, unobserved, value_texts,
  walk_fields, wildcard_cors, zero_address, zero_address_text,
}
use zkdeal_cloud_deployer_in.Profile.Signers.{signer_problems}

abbrev pub is_text : Fields → String → String → Bool
is_text value name text = eq_str (get value name) text

-- `availability.get("warmStandbyReplicas", 0)`
abbrev pub standby_replicas : Fields → ℕ
standby_replicas profile = number (get (section profile "availability") "warmStandbyReplicas")

abbrev pub replicas : Fields → String → ℕ
replicas profile name = number (get (section (section profile "services") name) "replicas")

abbrev pub external_storage : Fields → Bool
external_storage profile = is_text (section profile "storage") "backend" "external-transactional"

abbrev pub fenced_by_owner : Fields → Bool
fenced_by_owner profile =
    is_text (section profile "availability") "fencing" "owner-service-transactional"

abbrev pub has_queue : Fields → Bool
has_queue profile = is_true (get (section (section profile "services") "queue") "enabled")

-- `authoritative`
abbrev pub authoritative : Fields → List String
authoritative profile =
    if has_queue profile then "coordinator" ∷ "queue" ∷ [] else "coordinator" ∷ []

unfoldable pub key_problems : Fields → List Problem
key_problems profile =
    if is_text profile "environment" "local"
    then []
    else flag (any_of (λ s. any_of (lower_is s) known_keys) (walk_fields profile)) known_private_key

unfoldable pub exposure_problems : Fields → List Problem
exposure_problems profile =
    let public = is_true (get profile "publicExposure") in
    let security = section profile "security" in
    flag (public && is_text security "tlsMode" "disabled") tls_required
    ++ (flag (public && not (truthy (get security "trustedProxyCidrs"))) proxies_required
        ++ flag (contains (texts (get security "corsOrigins")) "*") wildcard_cors)

-- The loops over the authoritative services.
unfoldable pub each_service :
    Fields → (String → Bool) → (String → Problem) → List String → List Problem
each_service profile test problem [] = []
each_service profile test problem (name ∷ rest) =
    flag (test name) (problem name) ++ each_service profile test problem rest

unfoldable pub storage_problems : Fields → List Problem
unfolding each_service
storage_problems profile =
    flag (external_storage profile && has_queue profile) standalone_queue
    ++ (if is_text (section profile "storage") "backend" "filesystem"
        then each_service profile (λ name. ltb 1 (replicas profile name)) filesystem_replicas
            (authoritative profile)
          ++ flag (not (is_text (section profile "availability") "fencing" "none"))
              filesystem_fencing
        else each_service profile
            (λ name. ltb 1 (replicas profile name) && not (fenced_by_owner profile))
            unfenced_replicas (authoritative profile))

unfoldable pub one_coordinator : Fields → Problem → List Problem
one_coordinator profile problem =
    flag
      (not (nat_eq (replicas profile "coordinator") 1) || not (nat_eq (standby_replicas profile) 0))
      problem

unfoldable pub standby_problems : Fields → List Problem
standby_problems profile =
    flag (not (external_storage profile)) standby_storage
    ++ (flag (not (fenced_by_owner profile)) standby_fencing
        ++ (flag (ltb (replicas profile "coordinator") 2 || ltb (standby_replicas profile) 1)
              standby_size
            ++ flag (ltb 5 (number (get (section profile "availability") "rtoMinutes")))
                standby_recovery))

unfoldable pub availability_problems : Fields → List Problem
unfolding one_coordinator standby_problems
availability_problems profile =
    let mode = get (section profile "availability") "mode" in
    if eq_str mode "single-instance"
    then one_coordinator profile single_instance_size
    else if eq_str mode "single-region"
    then one_coordinator profile single_region_size
    else if eq_str mode "warm-standby"
    then standby_problems profile
    else []

-- `storage.get("hotRetentionDays") != 30 or storage.get("archiveRetentionDays", 0) < 365`
abbrev pub short_retention : Fields → Bool
short_retention storage =
    not (nat_eq (number (get storage "hotRetentionDays")) 30)
    || ltb (number (get storage "archiveRetentionDays")) 365

abbrev pub rpc_urls : Fields → List String
rpc_urls profile = texts (get (section profile "chain") "rpcUrls")

abbrev pub contracts : Fields → List String
contracts profile = value_texts (section (section profile "chain") "contracts")

abbrev pub observed : Fields → Bool
observed profile =
    let observability = section profile "observability" in
    truthy (get observability "enabled") && truthy (get observability "alertsEnabled")

unfoldable pub production_problems : Fields → List Problem
production_problems profile =
    let security = section profile "security" in
    flag (not (is_text (section profile "availability") "mode" "warm-standby")) production_mode
    ++ (flag (not (external_storage profile)) production_backend
        ++ (flag (is_text security "secretSource" "dotenv-local") dotenv_secrets
            ++ (flag (not (truthy (get security "existingSecret"))) secret_missing
                ++ (flag (truthy (get (section profile "images") "allowTagOverrides")) tag_overrides
                    ++ (flag (ltb (length (rpc_urls profile)) 2) one_rpc_url
                        ++ (flag
                              (any_of (λ url. occurs (codes "invalid.example") (codes url))
                                (rpc_urls profile))
                              placeholder_rpc_url
                            ++ (flag (any_of (lower_is zero_address_text) (contracts profile))
                                  zero_address
                                ++ (flag (not (observed profile)) unobserved
                                    ++ (flag
                                          (ltb (standby_replicas profile) 1
                                            || ltb (replicas profile "coordinator") 2)
                                          no_standby
                                        ++ (flag (short_retention (section profile "storage"))
                                              retention
                                            ++ (flag
                                                  (truthy (
                                                    get (section profile "availability")
                                                      "multiRegion"))
                                                  multi_region
                                                ++ signer_problems
                                                    (get security "signerRoles"))))))))))))

-- `DIGEST_RE`
abbrev pub is_digest : Json → Bool
is_digest (str s) =
    begins (codes "sha256:") (codes s)
    && (all_of is_lower_hex (skip_first 7 (codes s)) && nat_eq (length (codes s)) 71)
is_digest other = false

abbrev pub is_null : Json → Bool
is_null null = true
is_null other = false

-- The loop of `_image_policy`: errors and warnings.
unfoldable pub image_problems : Bool → Fields → List Problem × List Problem
image_problems production end = ([], [])
image_problems production (field name image rest) =
    let value = fields_of image in
    let (errors, warnings) = image_problems production rest in
    let malformed =
      flag (not (is_null (get value "digest")) && not (is_digest (get value "digest")))
        (malformed_digest name) in
    let missing =
      flag (truthy (get value "requiredInProduction") && not (truthy (get value "digest")))
        (missing_digest name) in
    if production
    then (malformed ++ (missing ++ errors), warnings)
    else (malformed ++ errors, missing ++ warnings)

-- `_image_policy`, for a manifest that could be read, or none.
unfoldable pub image_policy : Fields → Option Fields → List Problem × List Problem
unfolding image_problems
image_policy profile none = (manifest_problem ∷ [], [])
image_policy profile (some manifest) =
    image_problems (is_text profile "environment" "production") (section manifest "images")

-- The errors of `validate_profile` before it reads the manifest.
unfoldable pub policy_problems : Fields → List Problem
policy_problems profile =
    key_problems profile
    ++ (exposure_problems profile
        ++ (storage_problems profile
            ++ (availability_problems profile
                ++ (if is_text profile "environment" "production"
                    then production_problems profile
                    else []))))

-- `validate_profile`. `schema` holds the errors of `_schema_errors`, and `artifacts` is the result of
-- `owner_artifact_checks` if it is asked for.
unfoldable pub validate_profile :
    Fields → List Problem → Option Fields → Option CheckResult → CheckResult
validate_profile profile (problem ∷ rest) manifest artifacts = record {
  errors = problem ∷ rest;
  warnings = [];
}
validate_profile profile [] manifest artifacts =
    let (image_errors, image_warnings) = image_policy profile manifest in
    with_artifacts (policy_problems profile ++ image_errors) image_warnings artifacts
  where
    with_artifacts : List Problem → List Problem → Option CheckResult → CheckResult
    with_artifacts errors warnings none = record { errors = errors; warnings = warnings }
    with_artifacts errors warnings (some found) = record {
      errors = errors ++ found.errors;
      warnings = warnings ++ found.warnings;
    }
