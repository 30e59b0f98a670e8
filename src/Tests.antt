-- ===== src/Tests.antt =====
-- Programs, caches and memories at concrete values, and what the code does on them.
mod Samples
mod Programs
mod Machine
mod Pipeline
mod Memory
mod Caches
mod Safety
mod Refines
mod Registers
mod Readers
mod Mains
mod Images
mod Printing
mod Isa
