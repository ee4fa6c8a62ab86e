-- ===== src/Lib.antt =====
-- Verification of the failover and the fault drills of zkdeal-cloud-deployer-infra.
--
-- Two programs move the writer of a deployment from its active to its standby coordinator. The
-- controller (scripts/promotion_controller.py) watches the health witnesses of the active one. When
-- they have all failed for long enough it asks the provider (failover-provider/provider.py) to fence
-- the old writer and to promote the standby's database, asks the standby itself to take over, and
-- asks the provider to commit. The provider keeps a durable record of each operation, so that a
-- request may be repeated, and does its work through one of two drivers, for Docker and Kubernetes.
--
-- The fault control service (fault-control/fault_control.py) carries out fault drills against one
-- candidate: it stops, pauses and restarts fixed containers, cuts a network, and makes the two RPC
-- providers reorganise or disagree. Its journal writes an intent before each effect and a closure after.
--
-- Base: JSON values as Python sees them (Base/Json), the patterns of the programs as tests on code
-- points (Base/Text), decimal and hexadecimal texts (Base/Decimal, Base/Hexadecimal), lists and Boolean
-- tests. Base/Outcome and Base/Machine: results and actions with the world and the exceptions as
-- parameters; Machine/Keeps, Ensures and Ran: what actions keep, what they return, and their parts.
--
-- Provider: failover-provider/provider.py.
--   Provider/Model        the operations, the surroundings, and the monad of the methods
--   Provider/Probes       request_json, witness_networks, verify_*, the loops with a deadline
--   Provider/Docker       DockerDriver (prepare 356, commit 422), each command with its arguments
--   Provider/Kubernetes   KubernetesDriver (prepare 545, commit 602)
--   Provider/Store        the dictionary state["operations"]
--   Provider/Operations   class Provider: authenticate, _prepare, _commit, status
--   Provider/Http         class Handler: do_GET, do_POST; Provider/Contract/Lawful: build_driver
--   Provider/Settings     the three from_environment, with the readers of Promotion/Settings
--   Provider/Rules, Ensures, Untouched: rules for actions, and what leaves the operations alone
--   Provider/Guarded: requests that fail their authentication
--   Provider/Replay, Contract, Ending: repeated requests, the drivers' answers, the ends of the loops
--
-- Promotion: scripts/promotion_controller.py.
--   Promotion/Model       Config, request_json, emit, and the monad of run
--   Promotion/Settings    secret, integer, checked_url, Config.from_environment; Settings/Sound
--   Promotion/Validate    validate_prepare, validate_owner_promotion, validate_commit
--   Promotion/Monitor     the loop of run; Promotion/Promote: the rest of run, and main's status
--   Promotion/Discipline, Outage, Window, Recovery, Handshake: what is proved of it
--
-- Profile: scripts/common.py, `validate_profile` and `_image_policy`, the policy of deployment profiles.
--   Profile/Model, Signers, Policy: the errors, the signer roles, and the checks in their order
--   Profile/Flags, Roles, Hardened, Writers: what a profile without errors is known to have
-- A profile is a JSON object that has passed the schema of config/schema: jsonschema, the image
-- manifest and the check of artifacts are given by what they answer. Lower case is that of ASCII. Numbers
-- are compared as Python does, whole floats such as 3.0 included, which the schema's integer admits.
--
-- Faults: fault-control/fault_control.py.
--   Faults/Model          its files, its surroundings and its faults; Faults/Documents: checks of values
--   Faults/Journal        class Journal; Journal/Keeps, WriteOnce, AtMostOnce, Completed,
--                         Replay, Duplicates, Progress
--   Faults/Topology       Topology and its binding
--   Faults/Rpc            http_json, rpc_json, _block, _mine; Faults/Docker: docker_restart,
--                         docker_container_action, docker_network_action; Docker/Grace
--   Faults/Drills         _prior_closure, _container, _indexer_rollback, _network_partition;
--                         Drills/Disagreement: _rpc_disagreement; Drills/Reorg: _reorg;
--                         Drills/Reviewed, Targets, Runs, Outcomes, Parted, Branches: whom they
--                         reach, what they did and report, and the calls of a branch
--   Faults/Requests       _fault_callback and the checks of execute; Requests/Reading, Reviewed
--   Faults/Controller     authenticate, execute; Controller/Containment, Once
--   Faults/Startup        read_secret, normalized_url, safe_path; Startup/Targets, Profiles, Loading:
--                         load_topology; Startup/Building: build_controller; Startup/Isolated, Confined
--   Faults/Http           do_POST, and do_GET for an operation; Http/Unauthorized
-- A file of the journal is known by the document that its bytes hold. A document that the service wrote is
-- read back as it is up to 1 MiB, and refused above that, as in the source. The lock makes execute one step.
--
-- An action takes a world and gives a result and a world; what it wrote before it raises stays
-- written, as in Python. What the code asks of the world outside (subprocess, urlopen, the resolver,
-- the clocks, hashes, int, json) is answered by a record `Surroundings` of functions of the history
-- of all questions so far, so that answers may change in time and differ from one call to the next,
-- and the history shows the order of effects. A driver is a record of two actions, as the class
-- Driver has two methods, and `IsLawful` is its contract.
--
-- Loops: the loops over configured lists are structural. A loop with a deadline has one round for
-- each second of its timeout and one for the last test, since every round sleeps for a second.
-- The monitoring loop takes as many rounds as the caller gives; with a bounded window
-- max_monitor_cycles of them are enough, and with the value 0 the loop of the source has no bound.
-- An exhausted fuel is an error of its own, which no exception of the source is mapped to.
--
-- Not modelled: the texts of error messages, logging, TLS, sockets, the file behind the
-- provider's state, urlparse and int of the environment, the request timeout of urlopen, and threads:
-- the lock makes each mutation one step. The monotonic clock counts milliseconds, where the source
-- has a float that it rounds to three digits. Decimal digits are ASCII digits, compare_digest is
-- equality of texts, and the text of a negative integer, which no identifier matches, is left out.
-- Of the fault control service the load route, whose threads measure times in floats, the fixed paths of
-- do_GET and main are left out; urlsplit and urlunsplit of the topology are given.
-- The rest of scripts/common.py and the other programs of the repository are not modelled.
pub mod Base
pub mod Provider
pub mod Promotion
pub mod Profile
pub mod Faults
pub mod Tests
