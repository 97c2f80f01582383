-- ===== src/DeltaModel.antt =====
-- src/core/ivm_delta_model.cpp: the delta model's nodes, one for each operator of the plan, and the
-- affected domains of the base model.
pub mod Types
pub mod Node
pub mod Maintenance
pub mod Build
pub mod Structure
pub mod Fallback
pub mod Domains
mod Tests
