-- ===== src/IQoala.antt =====
-- The iQoala back end (lib/Target/iQoala): allocation of registers, qubits and sockets, and the
-- blocks of the host section.
pub mod Context
pub mod Routine
pub mod Meta
pub mod Program
pub mod Operands
pub mod NetQasm
pub mod HostAsm
pub mod Host
pub mod Checks
