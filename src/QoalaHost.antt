-- ===== src/QoalaHost.antt =====
-- The QoalaHost level (lib/Analysis/QoalaHost): block precedences, block traversal and block order.
pub mod Graph
pub mod Precedences
pub mod Traversal
pub mod MemoryEfficiency
pub mod GateCount
pub mod Ordering
mod Checks
