-- ===== src/Tests/Intruder.antt =====
-- failover-provider/provider.py: a POST request without the provider's token.
use zkdeal_cloud_deployer_in.Base.{refl, some, ◌≡◌}
use zkdeal_cloud_deployer_in.Base.Json.{obj}
use zkdeal_cloud_deployer_in.Provider.Model.{err, provider_error, ◌>>=◌}
use zkdeal_cloud_deployer_in.Provider.Operations.{authenticate}
use zkdeal_cloud_deployer_in.Provider.Http.{Request, do_post}
use zkdeal_cloud_deployer_in.Provider.Guarded.{do_post-unauthenticated}
use zkdeal_cloud_deployer_in.Provider.Contract.Lawful.{docker_driver}
use zkdeal_cloud_deployer_in.Tests.Platform.{
  empty_world, host, host_config, host_settings, prepare_body,
}

abbrev intruder : Request
intruder = record {
  path = "/v1/failovers";
  content_length = some 200;
  content_type = "application/json";
  authorization = some "Bearer guess";
  approval = some "approval-token";
  idempotency_key = "candidate-1";
  body = some (obj prepare_body);
}

is_refused :
    (authenticate host host_config intruder.authorization intruder.approval empty_world).0
    ≡ err (provider_error 401 "unauthorized")
unfolding authenticate ◌>>=◌
is_refused = refl

do_post-unauthenticated_example :
    (do_post host host_config (docker_driver host_settings host host_config) intruder empty_world).1
    ≡ empty_world
do_post-unauthenticated_example =
    do_post-unauthenticated host host_config (docker_driver host_settings host host_config) intruder
      (provider_error 401 "unauthorized") empty_world is_refused
