-- ===== src/Faults/Docker/Grace.antt =====
-- fault-control/fault_control.py, `stop_grace_seconds` beside the client's own timeout.
use zkdeal_cloud_deployer_in.Base.{arith, ℕ, ◌*◌, ◌+◌, ◌<◌, ◌≤◌}
use zkdeal_cloud_deployer_in.Faults.Docker.{stop_grace_seconds}

-- For a client timeout of at least two seconds the grace is at least one second, below the timeout, and
-- at most half of it; for one of at least six it leaves five seconds.
pub stop_grace_seconds_bounds :
    (timeout : ℕ)
    → 2 ≤ timeout
    → (1 ≤ stop_grace_seconds timeout)
      × (stop_grace_seconds timeout < timeout)
      × (stop_grace_seconds timeout * 2 ≤ timeout)
      × (6 ≤ timeout → stop_grace_seconds timeout + 5 ≤ timeout)
unfolding stop_grace_seconds
stop_grace_seconds_bounds timeout enough =
    (omega arith, omega arith, omega arith, λ more. omega arith)
