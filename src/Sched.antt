-- ===== src/Sched.antt =====
-- kernel/sched/task.c, include/LySys/sched.h and kernel/IRQ/timer.c: the task table and the
-- scheduler.
pub mod Defs
pub mod Choose
pub mod Reap
pub mod Schedule
pub mod Switch
pub mod Invariant
pub mod Life
pub mod Tasks
pub mod Fill
pub mod Create
pub mod Fork
pub mod Sleep
pub mod Reach
pub mod Ticks
pub mod Faults
