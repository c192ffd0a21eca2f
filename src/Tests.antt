-- ===== src/Tests.antt =====
-- Runs of the definitions on small inputs, and the theorems at concrete inputs.
mod Pmm
mod Paging
mod Boot
mod Irq
mod Ide
mod Printk
mod Heap
mod Sched
mod Fs
mod Drivers
mod CString
mod Files
mod Mounts
