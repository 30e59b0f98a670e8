-- ===== src/Main.antt =====
-- The programs of src/sim_funct.cpp and src/sim_cycle.cpp, their arguments and what they leave.
pub mod Arguments
pub mod Paths
pub mod Report
pub mod Funct
pub mod Cycle
pub mod Agree
