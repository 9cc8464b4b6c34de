-- ===== src/Filter.antt =====
-- internal/agent/filter: which nodes can take the Pod, by the checks that every node goes through.
pub mod Resources
pub mod Affinity
pub mod NodeChecks
pub mod Fit
pub mod Node
pub mod Evaluate
mod Tests
