-- ===== src/Process.antt =====
-- src/pyka/cli/broker.py: the process of a broker, from its environment to its last step.
pub mod Environment
pub mod Calls
pub mod Kept
pub mod Growth
pub mod Steps
pub mod Recall
pub mod Invariant
pub mod Probes
pub mod Shutdown
mod Tests
mod EnvironmentTests
mod RecallTests
