-- ===== src/Delegation.antt =====
-- clawmes/delegation: the on-chain delegation stack.
pub mod Hex
pub mod Types
pub mod Encoding
pub mod Dicts
pub mod Fill
pub mod Compiler
pub mod FromPolicy
pub mod Store
pub mod Service
pub mod Extractors
pub mod Executor
pub mod Tests
