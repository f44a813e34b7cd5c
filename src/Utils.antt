-- ===== src/Utils.antt =====
-- src/utils.cpp: the parsers of the /proc files, the environment, and the run state of a thread.
pub mod CpuList
pub mod Env
pub mod Ranks
pub mod Running
pub mod Files
pub mod ProcSelf
pub mod ProcStat
pub mod Filename
