-- ===== src/Compute.antt =====
-- The compute node: include/node/compute_request_handler.hpp.
pub mod Types
pub mod Request
pub mod Operations
pub mod Handler
mod Tests
mod TensorTests
mod MatrixTests
