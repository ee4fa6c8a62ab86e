-- ===== src/Tests/Failover.antt =====
-- failover-provider/provider.py: the theorems about its operations at concrete inputs.
use zkdeal_cloud_deployer_in.Base.{[], refl, ◌∷◌, ◌≡◌}
use zkdeal_cloud_deployer_in.Base.Json.{Fields, dict, scalar_text, str}
use zkdeal_cloud_deployer_in.Base.Text.{is_hex64, is_safe_id, parse_lsn}
use zkdeal_cloud_deployer_in.Provider.Model.{Result, World, err, ok, provider_error, ◌>>=◌}
use zkdeal_cloud_deployer_in.Provider.Probes.{
  count_failed, fetch, lsn_value, monotonic, or_inactive, poll, poll_for, signer_pass, unless_found,
  verify_indexer, verify_signer_authority, verify_standby, verify_witness_failures, wall,
  while_in_time, witness_networks,
}
use zkdeal_cloud_deployer_in.Provider.Store.{find, scalar_key, store}
use zkdeal_cloud_deployer_in.Provider.Operations.{
  Driver, amend, begin_commit, begin_prepare, check_prepare, checkpoint, commit, commit_found,
  complete, insert, prepare, prepare_found, run_commit, run_prepare,
}
use zkdeal_cloud_deployer_in.Provider.Contract.Lawful.{docker_driver, docker_driver-IsLawful}
use zkdeal_cloud_deployer_in.Tests.Platform.{
  empty_world, host, host_config, host_settings, prepare_body,
}
use zkdeal_cloud_deployer_in.Provider.Replay.Commit.{commit_replays}
use zkdeal_cloud_deployer_in.Provider.Replay.Prepare.{prepare_conflict, prepare_replays}
use zkdeal_cloud_deployer_in.Provider.Docker

abbrev driver : Driver
driver = docker_driver host_settings host host_config

abbrev ready : Fields
ready = Docker.ready_response (str "candidate-1") "0/10" "0/20"

abbrev first_prepare : Result Fields × World
first_prepare = prepare host host_config driver "candidate-1" prepare_body empty_world

-- The host answers the prepare as the source means it to.
prepare_returns : first_prepare.0 ≡ ok ready
unfolding prepare check_prepare prepare_found begin_prepare run_prepare checkpoint ◌>>=◌ wall
    monotonic fetch insert amend poll poll_for verify_witness_failures verify_standby verify_indexer
    witness_networks count_failed unless_found while_in_time find store scalar_key scalar_text
    is_safe_id parse_lsn lsn_value Docker.prepare Docker.argv Docker.run Docker.run_tolerant
    Docker.container Docker.running Docker.stop_container Docker.route_alias Docker.capture_target
    Docker.choose_target Docker.compare_replay Docker.caught_up Docker.replay_round Docker.or_stale
    Docker.promote_database Docker.fence_writer Docker.await_replay Docker.switch_database
prepare_returns = refl

prepare_replays_example :
    prepare host host_config driver "candidate-1" prepare_body first_prepare.1
    ≡ (ok ready, first_prepare.1)
prepare_replays_example =
    prepare_replays host host_config driver "candidate-1" prepare_body
      (docker_driver-IsLawful host host_config host_settings) empty_world ready prepare_returns

same_candidate :
    (check_prepare host host_config driver "candidate-2" prepare_body empty_world).0
    ≡ (check_prepare host host_config driver "candidate-1" prepare_body empty_world).0
unfolding check_prepare ◌>>=◌ scalar_key scalar_text is_safe_id
same_candidate = refl

prepare_conflict_example :
    prepare host host_config driver "candidate-2" prepare_body first_prepare.1
    ≡ (err (provider_error 409 "idempotency-conflict"), first_prepare.1)
prepare_conflict_example =
    prepare_conflict host host_config driver (docker_driver-IsLawful host host_config host_settings)
      "candidate-1" "candidate-2" prepare_body prepare_body empty_world ready prepare_returns
      same_candidate refl

abbrev owner_body : Fields
owner_body = dict (
    ("ownerResponseSha256", str "00112233445566778899aabbccddeeff00112233445566778899aabbccddeeff")
    ∷ [])

abbrev committed_answer : Fields
committed_answer =
    complete (Docker.committed_response "candidate-1" "node-b") 1_700_000_000_000 1_700_000_000_000

abbrev first_commit : Result Fields × World
first_commit = commit host host_config driver "candidate-1" "candidate-1" owner_body first_prepare.1

commit_returns : first_commit.0 ≡ ok committed_answer
unfolding prepare check_prepare prepare_found begin_prepare run_prepare checkpoint ◌>>=◌ wall
    monotonic fetch insert amend poll poll_for verify_witness_failures verify_standby verify_indexer
    witness_networks count_failed unless_found while_in_time find store scalar_key scalar_text
    is_safe_id parse_lsn lsn_value Docker.prepare Docker.argv Docker.run Docker.run_tolerant
    Docker.container Docker.running Docker.stop_container Docker.route_alias Docker.capture_target
    Docker.choose_target Docker.compare_replay Docker.caught_up Docker.replay_round Docker.or_stale
    Docker.promote_database Docker.fence_writer Docker.await_replay Docker.switch_database commit
    commit_found begin_commit run_commit is_hex64 Docker.commit Docker.activate_signer
    verify_signer_authority signer_pass or_inactive
commit_returns = refl

commit_replays_example :
    commit host host_config driver "candidate-1" "candidate-1" owner_body first_commit.1
    ≡ (ok committed_answer, first_commit.1)
commit_replays_example =
    commit_replays host host_config driver "candidate-1" "candidate-1" owner_body
      (docker_driver-IsLawful host host_config host_settings) first_prepare.1 committed_answer refl
      commit_returns
