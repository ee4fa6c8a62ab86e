-- ===== src/Promotion.antt =====
-- scripts/promotion_controller.py, the warm-standby promotion controller.
pub mod Model
pub mod Validate
pub mod Monitor
pub mod Promote
pub mod Contract
pub mod Handshake
pub mod Discipline
pub mod Outage
pub mod Window
pub mod Recovery
pub mod Settings
