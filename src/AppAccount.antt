-- ===== src/AppAccount.antt =====
-- The accounts that a contract keeps for its users (src/vm/appaccount.h, src/vm/appaccount.cpp).
pub mod Fund
pub mod Account
mod Keys
mod Ledger
mod Lookup
mod Refinement
mod Money
mod Thaw
mod Validity
mod Undo
mod Tests
mod Totality
mod Batch
pub mod Branches
