-- ===== src/Promotion/Validate.antt =====
-- scripts/promotion_controller.py: what the controller demands of the answers it gets.
use zkdeal_cloud_deployer_in.Base.{
  Bool, List, Option, String, [], false, leb, none, some, ℕ, ◌&&◌, ◌∷◌,
}
use zkdeal_cloud_deployer_in.Base.Text.{parse_lsn}
use zkdeal_cloud_deployer_in.Base.Json.{
  Fields, Json, as_int, eq_one, eq_str, get, is_dict, is_false, is_true, negsuc, pos, scalar_text,
  ℤ,
}
use zkdeal_cloud_deployer_in.Promotion.Model.{
  Config, Result, after, check, commit_differs, err, invalid_lsn, not_proved, not_ready, ok,
  operation_id_differs, owner_not_active, refused, replay_behind, replication_missing,
  signer_active_early, stale_checkpoint, wrong_target_source,
}

unfoldable pub active_witness_healthy : Fields → String → Bool
active_witness_healthy value active_id =
    eq_str (get value "coordinatorId") active_id
    && (eq_str (get value "effectiveRole") "active"
        && (is_true (get value "acceptingWrites") && is_true (get value "fenceFresh")))

unfoldable pub standby_ready : Fields → String → Bool
standby_ready value standby_id =
    eq_str (get value "coordinatorId") standby_id
    && (eq_str (get value "configuredRole") "standby"
        && (eq_str (get value "effectiveRole") "standby" && is_false (get value "acceptingWrites")))

-- The fields that the provider has to have proved.
abbrev pub prepare_proofs : List String
prepare_proofs =
    "activeFenced" ∷ "oldWriterTerminated" ∷ "targetCapturedByProvider" ∷ "databasePromoted"
    ∷ "standbyReplayAtOrAfterTarget" ∷ "indexerHeadMatchesL1" ∷ "stableDatabaseEndpointRouted" ∷ []

-- `for field in …: if value.get(field) is not True: raise`
unfoldable pub all_proved : Fields → List String → Result (Unit {0})
all_proved value [] = ok tt
all_proved value (name ∷ rest) =
    after (check (is_true (get value name)) (not_proved name)) (all_proved value rest)

-- `lsn_value(str(value))`
abbrev pub lsn_of : Json → Option ℕ
lsn_of value = elim (scalar_text value) [ none ↦ none | some s ↦ parse_lsn s ]

abbrev pub compare_lsn : Option ℕ → Option ℕ → Result (Unit {0})
compare_lsn none target = err (refused invalid_lsn)
compare_lsn (some replay) none = err (refused invalid_lsn)
compare_lsn (some replay) (some target) = check (leb target replay) replay_behind

-- `isinstance(age, int) and 0 <= age <= maximum`
abbrev pub fresh_age : Option ℤ → ℕ → Bool
fresh_age none maximum = false
fresh_age (some (negsuc n)) maximum = false
fresh_age (some (pos n)) maximum = leb n maximum

-- The checks of `validate_prepare`, in its order.
unfoldable pub prepare_checks : Config → Fields → Result (Unit {0})
prepare_checks config value =
    after (check (eq_str (get value "operationId") config.candidate_id) operation_id_differs) (
      after (all_proved value prepare_proofs) (
        after (check (eq_str (get value "status") "READY_FOR_APPLICATION_PROMOTION") not_ready) (
          after
            (check (eq_str (get value "primaryTargetSource") "durable-fenced-wal-checkpoint")
              wrong_target_source)
            (after (check (is_false (get value "standbySignerAuthorityActive")) signer_active_early)
              (after
                (compare_lsn (lsn_of (get value "standbyReplayLsn"))
                  (lsn_of (get value "primaryTargetLsn")))
                (check
                  (fresh_age (as_int (get value "checkpointAgeSeconds"))
                    config.max_checkpoint_age_seconds)
                  stale_checkpoint))))))

unfoldable pub validate_prepare : Config → Fields → Result String
unfolding prepare_checks
validate_prepare config value = after (prepare_checks config value) (ok config.candidate_id)

unfoldable pub validate_owner_promotion : Fields → Result (Unit {0})
validate_owner_promotion value =
    after (all_proved value ("promoted" ∷ "indexerHeadMatchesL1" ∷ [])) (
      after (check (eq_str (get value "effectiveRole") "active") owner_not_active)
        (check (is_dict (get value "promotionReplication")) replication_missing))

-- The fields of `expected` that are compared with `True`.
abbrev pub equal_true : Fields → String → Result (Unit {0})
equal_true value name = check (eq_one (get value name)) (commit_differs name)

unfoldable pub validate_commit : Config → String → Fields → Result (Unit {0})
validate_commit config operation_id value =
    after (check (eq_str (get value "operationId") operation_id) (commit_differs "operationId")) (
      after (equal_true value "writerRouteCommitted") (
        after
          (check (eq_str (get value "writerCoordinatorId") config.standby_coordinator_id)
            (commit_differs "writerCoordinatorId"))
          (after (equal_true value "oldWriterRouteRemoved") (
            after (equal_true value "stableDatabaseEndpointRouted")
              (equal_true value "signerAuthorityActivatedAfterFence")))))
