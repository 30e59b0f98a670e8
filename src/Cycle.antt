-- ===== src/Cycle.antt =====
-- src/cycle.cpp: the five-stage pipeline.
pub mod Forward
pub mod Step
pub mod Run
pub mod Refine
