-- ===== src/Tensor.antt =====
-- The tensors of include/common/tensor.hpp, and what include/x86_64 does with tensors of ciphertexts.
pub mod Stride
pub mod Accessor
pub mod Rows
pub mod Class
pub mod Dense
pub mod RowMajor
pub mod Positions
pub mod Loops
pub mod Nupow
pub mod Ciphers
mod Tests
