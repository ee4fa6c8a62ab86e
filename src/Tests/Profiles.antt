-- ===== src/Tests/Profiles.antt =====
-- scripts/common.py: the theorems about profiles at a production profile.
use zkdeal_cloud_deployer_in.Base.{String, [], arith, false, none, refl, some, true, ℕ, ◌∷◌, ◌≡◌}
use zkdeal_cloud_deployer_in.Base.Text.{is_lower_hex}
use zkdeal_cloud_deployer_in.Base.Json.{
  Fields, Json, arr, bool, dict, end, float, item, nil, num, obj, str,
}
use zkdeal_cloud_deployer_in.Profile.Model.{flag, number, section, walk}
use zkdeal_cloud_deployer_in.Profile.Signers.{signer_problems}
use zkdeal_cloud_deployer_in.Profile.Policy.{
  availability_problems, exposure_problems, fenced_by_owner, image_policy, is_text, key_problems,
  policy_problems, production_problems, replicas, storage_problems, validate_profile,
}
use zkdeal_cloud_deployer_in.Profile.Hardened.{Hardened, validate_profile-Hardened}
use zkdeal_cloud_deployer_in.Profile.Writers.{validate_profile-FencedService}

abbrev role : String → String → Json
role address service = obj (
    dict (
      ("enabled", bool true)
      ∷ ("address", str address)
      ∷ ("allowedServices", arr (item (str service) nil))
      ∷ []))

abbrev service : ℕ → Json
service replicas = obj (dict (("enabled", bool true) ∷ ("replicas", num replicas) ∷ []))

abbrev live : Fields
live = dict (
    ("environment", str "production")
    ∷ ("publicExposure", bool true)
    ∷ (
      "chain",
      obj (
          dict (
            ("rpcUrls", arr (item (str "https://a.test") (item (str "https://b.test") nil)))
            ∷ (
              "contracts",
              obj (dict (("roomPool", str "0x00000000000000000000000000000000000000aa") ∷ [])),
            )
            ∷ [])),
    )
    ∷ (
      "services",
      obj (
          dict (
            ("coordinator", service 2)
            ∷ ("queue", obj (dict (("enabled", bool false) ∷ ("replicas", num 0) ∷ [])))
            ∷ [])),
    )
    ∷ (
      "storage",
      obj (
          dict (
            ("backend", str "external-transactional")
            ∷ ("hotRetentionDays", num 30)
            ∷ ("archiveRetentionDays", num 365)
            ∷ [])),
    )
    ∷ (
      "availability",
      obj (
          dict (
            ("mode", str "warm-standby")
            ∷ ("fencing", str "owner-service-transactional")
            ∷ ("rtoMinutes", float "5.0")
            ∷ ("warmStandbyReplicas", num 1)
            ∷ [])),
    )
    ∷ (
      "security",
      obj (
          dict (
            ("tlsMode", str "acme")
            ∷ ("trustedProxyCidrs", arr (item (str "10.0.0.0/8") nil))
            ∷ ("corsOrigins", arr nil)
            ∷ ("secretSource", str "kubernetes-secret")
            ∷ ("existingSecret", str "cloud")
            ∷ (
              "signerRoles",
              obj (
                  dict (
                    ("liveness", role "https://s1" "coordinator-active")
                    ∷ ("operationsSettlement", role "https://s2" "coordinator-active")
                    ∷ ("payout", role "https://s3" "provider-payout")
                    ∷ ("finalityOracle", role "https://s4" "finality-oracle")
                    ∷ ("sponsorRelayer", role "https://s5" "sponsorship")
                    ∷ ("withdrawalRelayer", role "https://s6" "auto-claimer")
                    ∷ [])),
            )
            ∷ [])),
    )
    ∷ ("observability", obj (dict (("enabled", bool true) ∷ ("alertsEnabled", bool true) ∷ [])))
    ∷ ("images", obj (dict (("allowTagOverrides", bool false) ∷ [])))
    ∷ [])

whole_float_test : number (float "10.0") ≡ 10
unfolding number
whole_float_test = refl

exponent_test : number (float "1.25e+16") ≡ 12500000000000000
unfolding number
exponent_test = refl

no_errors : (validate_profile live [] (some end) none).errors ≡ []
unfolding validate_profile policy_problems key_problems exposure_problems storage_problems
    availability_problems production_problems image_policy signer_problems flag walk is_lower_hex
    number
no_errors = refl

validate_profile-Hardened_example : Hardened live
validate_profile-Hardened_example = validate_profile-Hardened live [] (some end) none refl no_errors

validate_profile-FencedService_example :
    (is_text (section live "storage") "backend" "filesystem" ≡ false)
    × (fenced_by_owner live ≡ true)
unfolding number
validate_profile-FencedService_example =
    validate_profile-FencedService live [] (some end) none "coordinator" no_errors refl
      (omega arith)
