-- ===== src/Profile.antt =====
-- scripts/common.py: the policy that a deployment profile has to keep.
pub mod Model
pub mod Signers
pub mod Policy
pub mod Hardened
pub mod Flags
pub mod Roles
pub mod Writers
