-- ===== src/Classifier.antt =====
-- src/core/ivm_view_classifier.cpp: from the facts of a view's plan to its refresh type, its features
-- and its aux states.
pub mod Types
pub mod Names
pub mod NamesDistinct
pub mod Facts
pub mod Reasons
pub mod Select
pub mod Choice
pub mod Decide
pub mod Decision
pub mod Dedup
pub mod Candidates
pub mod DedupLaws
mod Tests
