-- ===== src/Tests.antt =====
-- The theorems at concrete inputs.
mod Platform
mod Cluster
mod Failover
mod Controller
mod Exchange
mod Ending
mod Profiles
mod Configuration
mod ProviderConfiguration
mod Intruder
mod FaultDrills
mod RpcDrills
mod FaultStartup
