-- ===== src/Vm/Closure.antt =====
-- Every instruction of src/vm/vm8051.cpp is made of a few writes: of a byte of the internal memory,
-- of a byte of the special function registers, of PC, and for three instructions of a byte of the
-- external memory. A predicate that these writes keep is kept by every step.
pub mod Writes
pub mod Arith
pub mod Logic
pub mod Move
pub mod Bits
pub mod Flow
pub mod Rows
pub mod Steps
