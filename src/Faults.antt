-- ===== src/Faults.antt =====
-- fault-control/fault_control.py: the service that runs fault drills against one candidate's fixed
-- containers and RPC providers, and keeps a journal of them.
pub mod Model
pub mod Documents
pub mod Journal
pub mod Topology
pub mod Rpc
pub mod Docker
pub mod Drills
pub mod Requests
pub mod Controller
pub mod Startup
pub mod Http
