-- ===== src/Sched.antt =====
-- Project_2/stuff/sched.c: the kernel's scheduler, changed to share the processor among users.
pub mod Choose
pub mod Task
pub mod Goodness
mod Samples
pub mod Idle
pub mod Wake
pub mod Policy
pub mod Switch
pub mod Timeout
pub mod Completion
pub mod Tail
pub mod Affinity
pub mod Sleep
pub mod Signals
