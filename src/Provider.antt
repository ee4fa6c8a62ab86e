-- ===== src/Provider.antt =====
-- failover-provider/provider.py, the first-party failover provider.
pub mod Model
pub mod Probes
pub mod Docker
pub mod Kubernetes
pub mod Store
pub mod Operations
pub mod Http
pub mod Rules
pub mod Untouched
pub mod Ensures
pub mod Replay
pub mod Contract
pub mod Ending
pub mod Settings
pub mod Guarded
