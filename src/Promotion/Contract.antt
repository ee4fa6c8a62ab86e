-- ===== src/Promotion/Contract.antt =====
-- The answers of failover-provider/provider.py under the checks of scripts/promotion_controller.py.
use zkdeal_cloud_deployer_in.Base.{
  Bool-cases, Option, String, arith, eq_refl, if◌then◌else◌, inl, inr, leb, subst, sym, true, ℕ,
  ◌==◌, ◌≡◌, ◌≤◌,
}
use zkdeal_cloud_deployer_in.Base.Json.{Fields, scalar_text, str}
use zkdeal_cloud_deployer_in.Provider.Docker.{committed_response, ready_response}
use zkdeal_cloud_deployer_in.Provider.Contract.{Ready, Replayed}
use zkdeal_cloud_deployer_in.Promotion.Model.{Config, commit_differs, err, ok, refused}
use zkdeal_cloud_deployer_in.Promotion.Validate.{all_proved, validate_commit, validate_prepare}

zero_within : (n : ℕ) → leb 0 n ≡ true
zero_within n = ground arith

at_or_after-leb : (a b : ℕ) → a ≤ b → leb a b ≡ true
at_or_after-leb a b h = ground arith

accepts_ready :
    (config : Config) (target replay : String)
    → Replayed target replay
    → validate_prepare config (ready_response (str config.candidate_id) target replay)
      ≡ ok config.candidate_id
unfolding validate_prepare all_proved scalar_text
accepts_ready config target replay r = rw (
  eq_refl config.candidate_id,
  r.wanted_lsn,
  r.reached_lsn,
  at_or_after-leb r.wanted r.reached r.at_or_after,
  zero_within config.max_checkpoint_age_seconds,
)

-- The controller's validation accepts every response that promises the candidate of its own
-- configuration, whatever was captured before.
pub validate_prepare-Ready :
    (config : Config) (existing : Option String) (response : Fields)
    → Ready (str config.candidate_id) existing response
    → validate_prepare config response ≡ ok config.candidate_id
validate_prepare-Ready config existing response r =
    subst (λ x. validate_prepare config x ≡ ok config.candidate_id) (sym r.is_response)
      (accepts_ready config r.target r.replay r.replayed)

-- A commit response passes exactly if it names the standby that the controller is configured with.
pub validate_commit-committed_response :
    (config : Config) (operation_id standby_id : String)
    → validate_commit config operation_id (committed_response operation_id standby_id) ≡ (
        if standby_id == config.standby_coordinator_id
        then ok tt
        else err (refused (commit_differs "writerCoordinatorId")))
unfolding validate_commit
validate_commit-committed_response config operation_id standby_id =
    elim (Bool-cases (standby_id == config.standby_coordinator_id)) [
      | inl same ↦ rw (eq_refl operation_id, same)
      | inr other ↦ rw (eq_refl operation_id, other)
    ]
