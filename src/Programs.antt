-- ===== src/Programs.antt =====
-- The command lines of the programs: what src/install/workspace_config.cpp writes into the unit of the
-- daemon, and what src/apps/pgmemd_main.cpp reads.
pub mod Args
pub mod Unit
