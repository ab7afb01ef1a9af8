-- ===== src/QMem.antt =====
-- The QMem level (lib/Analysis/QMem): the grouping of quantum operations into routines.
pub mod PerQubit
