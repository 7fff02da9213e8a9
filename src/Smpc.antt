-- ===== src/Smpc.antt =====
-- include/smpc: decryption by the nodes of a network, and multiplication with Beaver triplets.
pub mod Decrypt
pub mod Multiply
pub mod Renewal
pub mod Tensors
pub mod Triplets
mod Tests
mod RenewalTests
