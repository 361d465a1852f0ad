-- ===== src/Engine/Review.antt =====
-- The bounded review of a run: internal/engine/bounded_review.go, the part that decides on texts.
-- Reading the worktree and running git are outside.
pub mod Scope
pub mod Protected
pub mod Paths
pub mod Records
mod Tests
