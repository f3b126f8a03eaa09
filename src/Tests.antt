-- ===== src/Tests.antt =====
-- Runs of the model on small inputs, and the theorems at inputs that meet their hypotheses.
pub mod Planning
pub mod Converging
pub mod Running
pub mod Recording
pub mod Executing
pub mod Observing
pub mod Tagging
pub mod Pushing
pub mod Phasing
pub mod Loading
pub mod Stamping
pub mod Pinning
pub mod Receiving
pub mod Scheduling
pub mod Pulling
pub mod Grouping
