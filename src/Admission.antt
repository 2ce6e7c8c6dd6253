-- ===== src/Admission.antt =====
-- src/media_gate.rs, src/resource_budget.rs, src/cpu_policy.rs and src/stage_limits.rs: what may run
-- at once.
pub mod Gate
pub mod Budget
pub mod Stages
pub mod Widths
pub mod Gates
