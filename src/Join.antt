-- ===== src/Join.antt =====
-- src/delta/operators/join.cpp: which delta terms the compiler builds for an inner join, and
-- what a term contributes to a row of the view's delta.
pub mod Mask
mod MaskLaws
mod StatusLaws
mod ZeroTerms
mod Pruned
pub mod Leaves
pub mod ForeignKeys
pub mod Correct
pub mod Status
pub mod Terms
pub mod Weights
pub mod Expansion
mod Tests
