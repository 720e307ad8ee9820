-- ===== src/Validation.antt =====
-- backend/validation: the rules that a graph must meet before it is run. `Issue` is errors.py,
-- `Slots`, `Flow`, `Names` and `SubNodes` are rules.py, and `Validator` is validator.py; the other
-- modules hold the theorems.
pub mod Issue
pub mod Slots
pub mod Flow
pub mod Names
pub mod SubNodes
pub mod Validator
pub mod Edges
pub mod Inputs
pub mod Resolvable
pub mod Types
pub mod Verdict
