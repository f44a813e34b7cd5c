-- ===== src/Software.antt =====
-- src/software.h: the threads and the processes that are watched.
pub mod Lwp
pub mod Process
