-- ===== src/Presentation.antt =====
-- msys_core/presentation_i18n.py: translated names of packages, and the cache of their catalogs.
pub mod Paths
pub mod Locales
pub mod Parents
pub mod Chains
pub mod Cache
pub mod Recency
pub mod Runs
mod Samples
