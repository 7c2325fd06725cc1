-- ===== src/Policy.antt =====
-- clawmes/policy: the rules that every write tool passes.
pub mod Types
pub mod Usage
pub mod Evaluator
pub mod Confirm
pub mod Tests
