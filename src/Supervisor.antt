-- ===== src/Supervisor.antt =====
-- msys_core/msysd.py: the pure decisions and the state changes of the supervisor.
pub mod Instances
pub mod Policies
pub mod Graph
pub mod Foreground
pub mod Restarts
pub mod Idle
pub mod Errors
pub mod Access
pub mod Events
pub mod Runtime
pub mod Providers
pub mod Responses
pub mod Forward
pub mod Calls
pub mod Transactions
pub mod Memory
pub mod Eager
pub mod Visual
pub mod Routing
