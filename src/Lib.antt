-- ===== src/Lib.antt =====
-- Dacrs: a block chain node that runs contracts. This library models parts of its C++ code.
--
-- The program's parts. A node keeps a chain of blocks and views on accounts and contracts
-- (src/main.cpp, src/database.cpp, src/tx.cpp). A transaction to a contract is run by the run
-- environment (src/vm/vmrunevn.cpp) in a virtual machine: for contracts in machine code the 8051
-- interpreter of src/vm/vm8051.h and src/vm/vm8051.cpp. The machine executes instructions, exchanges
-- data with the host through a shared piece of its external memory, and is stopped by a step limit.
-- A contract keeps accounts for its users (src/vm/appaccount.cpp): the operations that it asks for
-- while it runs are applied to them behind the run.
--
-- Files.
-- Base and below: the names shared by all modules, numbers as machine words, bit operations, ℤ.
-- Vm/State: the machine as a record of memories (functions from addresses to cells) and PC, and the
--   accessors of vm8051.h (CUPReg, CUPSfr, tagpsw, GetRamData, SetBitFlag and so on). Registers are
--   cells, as they are in the code: R0 to R7 the first cells of the internal memory, A, B, SP, DPTR
--   and PSW special function registers.
-- Vm/Ops: one function for each Opcode_XX method. The eight methods on R0 to R7, and the two on @R0
--   and @R1, that differ in the register only are one function of the register's number.
-- Vm/Step: StepRun, a table of the 256 cases.
-- Vm/Api: GetData, the five amount functions and CallExternalFunc. The other functions of the table
--   are a parameter.
-- Vm/Run: run(maxstep, pVmEvn), on fuel. maxstep rounds are enough where the calls that the run makes
--   report steps (Vm/Run/Limits); no fuel is where they report none (Vm/Run/Spin).
-- Vm/Closure, Vm/Safety, Vm/Alu, Vm/Stack, Vm/Parity, Vm/BitRam, Vm/Share, Vm/Amounts and the modules
--   below Vm/Run: proofs. Vm/Tests: instances and runs.
-- AppAccount/Fund: CAppCFund and CAppFundOperate of src/vm/appaccount.h, and the search for a fund by
--   tag and height.
-- AppAccount/Account: CAppUserAccout of src/vm/appaccount.cpp, a record of the free money and the
--   list of frozen funds, with one function for each method. A failed assertion, which ends the
--   program, is `none`; else a method gives its result and the account afterwards.
-- AppAccount/Ledger: the account without its list, as free money and frozen money under each tag and
--   height, and what an operation may do to it; proofs in AppAccount/Refinement.
-- AppAccount/Keys, Branches, Lookup, Money, Validity, Thaw, Batch, Undo, Totality: proofs on searches,
--   on the branches of each method, on sums of money, on well-formed accounts, on the freeing of
--   frozen funds, on batches, on undoing and on failed assertions. AppAccount/Tests: instances.
-- RunEnv/Check: CVmOperate, GetAccountID and CheckOperate of src/vm/vmrunevn.cpp, over the views on
--   accounts and contracts as an interface; proofs in RunEnv/Accepted.
-- RunEnv/AppCheck: CheckAppAcctOperate of the same file; proofs in RunEnv/AppBalance.
-- RunEnv/Fees: the step limit of run, with proofs. RunEnv/Tests: instances.
-- Base/Dict: std::map as a list of entries with one entry for a key, and its laws.
-- Account: CAccount and CAccountLog of src/tx.h and src/tx.cpp, and MoneyRange of src/core.h. A method
--   that changes the account gives its result and the account afterwards. Proofs in Account/Money,
--   Account/CoinDays and Account/Undo.
-- Views: CAccountViewCache of src/database.cpp over a base, which is a cache again or the database,
--   CAccountViewDB of src/txdb.cpp; a read gives what it finds and the view with what its caches have
--   kept. Views/Batch has the batches, Flush, the best block and HaveAccount, Views/ByUser the access
--   by CUserID. Views/Observe says which accounts and ids are found in a view, as one map; Views/Reads,
--   Writes, Flush, BestBlock, Identity and Layer prove what the operations do to that map.
-- ScriptDb: CScriptDBViewCache and CScriptDB, the same for the data of contracts; ScriptDb/Data has the
--   scripts, the data with their counts and logs, UndoScriptData and the lists of addresses. Proofs in
--   ScriptDb/Observe, Counts, Undo, RoundTrip and Flush.
-- Tx: CTransaction::ExecuteTx of src/tx.cpp up to where a contract would run; Tx/Contract the rest of
--   it, Tx/Index the lists of addresses, Tx/Reward CRewardTransaction::ExecuteTx, Tx/Revert
--   CBaseTransaction::UndoExecuteTx, Tx/Register ExecuteTx and UndoExecuteTx of CRegisterAccountTx. An
--   outcome is acceptance or a refusal with its reason, each with the state that the code leaves.
--   Proofs in Tx/Transfer, Facts, Money and Undo, and in Tx/Entries, Registering, Charged,
--   Registered and Unregistered.
-- TxCache: CTransactionDBCache of src/database.cpp over CTransactionDB of src/txdb.cpp, each a list of
--   blocks in the order of their hashes. Proofs in TxCache/Contain and Flush.
-- Serialize: WriteCompactSize, ReadCompactSize, WriteVarInt, ReadVarInt and GetSizeOfVarInt of
--   src/serialize.h. The stream is the list of its bytes; the rounds of the loops that write are
--   limited by the cells of the buffer szTemp. Proofs in Serialize/VarInt and CompactSize.
-- Account/Tests, Views/Tests, ScriptDb/Tests, Tx/Tests, Tx/RegisterTests, TxCache/Tests, Serialize/Tests:
--   instances and runs.
--
-- Choices. An INT8U or INT16U is a number, reduced where the code stores it. `char` is signed, as on
-- the platforms that the program supports. Reading behind the end of m_ExeFile at PC 0xFFFF is
-- undefined in C++: cells past 0xFFFF are arbitrary. Signed overflow in the amount functions wraps,
-- as it does on these platforms, and the division that traps is a fault. The step count is an
-- unbounded integer, which the limit keeps far from 2 ^ 63. The checked addition of SafeInt3.hpp, a
-- library of another project, is a parameter with what it documents (Base/Checked,
-- Base/Signed). The chain of blocks is, for the accounts of contracts, the list of the times of its
-- blocks. LevelDB is a map whose reads and writes succeed. Public keys and hashes are a parameter
-- (PubKeys): which bytes are a point of the curve, and the hash that names a key. An id of an account
-- is a number, a registered id its bytes. What a contract's run gives to ExecuteTx is a parameter of
-- Tx/Contract. Where the text of a refusal itself throws (boost::get of another type), the refusal is
-- modelled.
--
-- Not modelled: the debug loop run() and the debugger, the Lua machine, and for now the rest of the
-- run environment, the transactions that register contracts, the checks of transactions, the iteration
-- over contract data, and the rest of the node: chain, memory pool, wallet, network.
pub mod Base
pub mod Vm
pub mod AppAccount
pub mod RunEnv
pub mod Account
pub mod ScriptDb
pub mod Serialize
pub mod Tx
pub mod TxCache
pub mod Views
