-- ===== src/Manifest.antt =====
-- msys_core/manifest.py: the components that package manifests declare.
pub mod Types
pub mod Example
pub mod Entries
pub mod Packages
pub mod Document
pub mod Loaded
mod Samples
