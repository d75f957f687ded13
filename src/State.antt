-- ===== src/State.antt =====
-- src/state: the directory tree under /var/lib/cloud, the semaphores and the instance.
pub mod Paths
pub mod Semaphore
pub mod Instance
