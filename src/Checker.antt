-- ===== src/Checker.antt =====
-- src/core/incremental_checker.cpp: from a view's plan to the facts that the classifier reads.
pub mod Operators
pub mod Facts
pub mod Local
pub mod Analyze
pub mod Adds
pub mod Lasts
pub mod FactSteps
pub mod OperatorSteps
pub mod Grows
pub mod Reported
pub mod Explained
pub mod Consistent
pub mod Lists
pub mod Offends
pub mod AggregateSupport
pub mod Supported
pub mod Refusal
pub mod Acceptance
pub mod Refused
mod Tests
