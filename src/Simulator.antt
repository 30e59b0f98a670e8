-- ===== src/Simulator.antt =====
-- src/simulator.h and src/simulator.cpp: one instruction as a record that the pipeline stages fill
-- in, the functions that fill it, and the machine state that they read and write.
pub mod Instruction
pub mod Decode
pub mod Resolve
pub mod Arith
pub mod Access
pub mod Machine
pub mod Registers
