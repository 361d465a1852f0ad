-- ===== src/Engine.antt =====
-- The engine: internal/engine/engine.go.
pub mod Admission
pub mod Review
pub mod Launch
pub mod Steps
pub mod Source
pub mod Evaluate
pub mod Requests
pub mod Close
pub mod Tests
