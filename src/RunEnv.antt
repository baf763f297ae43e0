-- ===== src/RunEnv.antt =====
-- The run environment of a contract (src/vm/vmrunevn.cpp): what it lets a contract do to accounts.
pub mod Check
mod Accepted
pub mod Fees
mod Tests
pub mod AppCheck
mod AppBalance
