-- ===== src/Capture.antt =====
-- internal/cluster/cache.go: the nodes and jobs that the scheduler prints from its cache.
mod Tests
pub mod Patterns
pub mod Lines
pub mod Scan
pub mod Dump
pub mod RoundTrip
pub mod Stream
pub mod Safety
pub mod Progress
