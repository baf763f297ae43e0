-- ===== src/Vm/Ops.antt =====
-- The instructions of src/vm/vm8051.h and src/vm/vm8051.cpp, by what they do.
pub mod Arith
pub mod Logic
pub mod Move
pub mod Bits
pub mod Flow
