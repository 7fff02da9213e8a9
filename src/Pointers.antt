-- ===== src/Pointers.antt =====
-- The shared pointers of include/common/pointers.hpp and the control blocks behind them.
pub mod Block
pub mod Shared
pub mod Variables
mod Tests
