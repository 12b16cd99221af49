-- ===== src/ProfileContract.antt =====
-- msys_core/profile_contract.py: the validator of the profile contract.
pub mod Patterns
pub mod Checks
pub mod Nesting
pub mod Validate
pub mod Accepted
mod Samples
