-- ===== src/Utilities.antt =====
-- src/Utilities.cpp and src/Utilities.h: the bit helpers, the status codes and the encodings'
-- constants.
pub mod Bits
pub mod Codes
pub mod Extend
pub mod Extract
pub mod Names
pub mod Print
