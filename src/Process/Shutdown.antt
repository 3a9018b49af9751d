-- ===== src/Process/Shutdown.antt =====
-- The end of the process: waiters are released, no call meets a closed log, and the end is reached.
pub mod Quiet
pub mod Released
pub mod Draining
pub mod Finishing
