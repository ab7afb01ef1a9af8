-- ===== src/QNet.antt =====
-- The QNet level (lib/Analysis/QNet): peephole optimisation of rotations and dead code elimination.
pub mod GateCount
pub mod Checks
pub mod DeadCode
pub mod Linearity
pub mod IntRotation
