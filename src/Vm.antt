-- ===== src/Vm.antt =====
-- The 8051 virtual machine that runs contracts: src/vm/vm8051.h and src/vm/vm8051.cpp.
pub mod State
pub mod Ops
pub mod Step
pub mod Closure
pub mod Safety
pub mod Alu
pub mod Stack
pub mod Parity
pub mod Share
pub mod Amounts
pub mod BitRam
pub mod Api
pub mod Run
mod Tests
