-- ===== src/Roles.antt =====
-- msys_core/roles.py: which component fills a role, and the leases of the providers.
pub mod Types
pub mod Registry
pub mod Leases
pub mod Build
pub mod Catalog
pub mod Order
pub mod Declarations
pub mod Ranks
pub mod States
pub mod Runs
pub mod Tokens
pub mod Fresh
pub mod Profile
pub mod Invariant
pub mod Granting
pub mod Acquiring
pub mod Releasing
pub mod Stopping
mod Samples
