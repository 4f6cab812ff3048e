-- ===== src/Proc.antt =====
-- kernel/proc: processes, the queues of the scheduler, signals and open files.
pub mod Process
pub mod Files
pub mod Queues
pub mod Signals
pub mod Invoke
pub mod Fork
pub mod Sleep
pub mod Wait
mod Tests
