-- ===== src/Bits.antt =====
-- Laws of the bit operations at every width; the libraries have none.
mod Step
pub mod Xor
pub mod Fields
