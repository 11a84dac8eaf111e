-- ===== src/Threads.antt =====
-- threads: the locks, the thread pool and the task launcher.
pub mod Launcher
pub mod Pool
pub mod Locks
