-- ===== src/Container.antt =====
-- src/container/: the parts that run a container. Each module below is about one file of it; `Kernel`
-- is the interface to the system calls.
pub mod Kernel
pub mod Namespaces
pub mod Context
pub mod Mounts
pub mod Limits
pub mod Process
pub mod Cgroups
