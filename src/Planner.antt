-- ===== src/Planner.antt =====
-- src/planner.cpp: validation of tasks, their order, the rounds of point-to-point messages, and the
-- slices of a collective. One child models one group of functions, and its own children prove.
mod StableSort
pub mod Validate
pub mod Rounds
pub mod Sort
pub mod Slices
pub mod Peers
pub mod Batch
mod Examples
