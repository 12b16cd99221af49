-- ===== src/Isolation.antt =====
-- msys_core/isolation.py: the isolation that a component asks for.
pub mod Spec
pub mod Parse
pub mod Accepted
mod Samples
