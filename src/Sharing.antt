-- ===== src/Sharing.antt =====
-- Threshold secret sharing: include/x86_64/cpu_cryptosystem_distributed.inl, and `nCr` of
-- include/common/algorithms.hpp.
pub mod Matrix
pub mod Span
pub mod Choose
pub mod Combination
pub mod Isp
pub mod Decrypt
pub mod Keygen
mod Tests
