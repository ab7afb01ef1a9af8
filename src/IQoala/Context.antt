-- ===== src/IQoala/Context.antt =====
-- The allocators of lib/Target/iQoala/iQoalaContext.cpp. `none` is a failed assertion.
pub mod Registers
pub mod Qubits
pub mod Sockets
use Prim.Native.String.{String}
use text.Mathlib.Text.{◌==◌ as str_eq}
use qoala_mlir.Common.{
  ℕ, zero, suc, ◌+◌, ◌%◌, ◌^◌, Bool, true, false, List, [], ◌∷◌, ◌++◌, Option, none, some, ◌>>=◌,
  ◌==◌, ltb, if◌then◌else◌, length,
}
use qoala_mlir.IQoala.Program.{RegType, local, r, c, m, q}

pub record LocalRoutineRegisters : Type 0 where
  pub r_registers : List ℕ
  pub c_registers : List ℕ
  pub m_registers : List ℕ
  pub q_registers : List ℕ

abbrev pub no_registers : LocalRoutineRegisters
no_registers = record { r_registers = []; c_registers = []; m_registers = []; q_registers = [] }

-- `const uint8_t lastAvailable = registers.size()`, the assertion, and push_back.
unfoldable pub allocate_bounded : ℕ → List ℕ → Option (ℕ × List ℕ)
allocate_bounded limit registers =
    let last_available = length registers % 2 ^ 8 in
    if ltb last_available limit
    then some (last_available, registers ++ last_available ∷ [])
    else none

unfoldable pub allocate_c_registry : LocalRoutineRegisters → Option (ℕ × LocalRoutineRegisters)
unfolding allocate_bounded
allocate_c_registry regs =
    allocate_bounded 16 regs.c_registers >>= λ (n, l). some (n, record regs { c_registers = l })

unfoldable pub allocate_r_registry : LocalRoutineRegisters → Option (ℕ × LocalRoutineRegisters)
unfolding allocate_bounded
allocate_r_registry regs =
    allocate_bounded 16 regs.r_registers >>= λ (n, l). some (n, record regs { r_registers = l })

unfoldable pub allocate_m_registry : LocalRoutineRegisters → Option (ℕ × LocalRoutineRegisters)
unfolding allocate_bounded
allocate_m_registry regs =
    allocate_bounded 16 regs.m_registers >>= λ (n, l). some (n, record regs { m_registers = l })

-- Q registers have no bound.
unfoldable pub allocate_q_registry : LocalRoutineRegisters → Option (ℕ × LocalRoutineRegisters)
allocate_q_registry regs =
    let last_available = length regs.q_registers % 2 ^ 8 in
    some (last_available, record regs { q_registers = regs.q_registers ++ last_available ∷ [] })

-- A routine is a number; DenseMap is an association list; `qubits` says which ids are in use.
pub record Context : Type 0 where
  pub host_registers : List ℕ
  pub routines_registers : List (ℕ × LocalRoutineRegisters)
  pub qubits : ℕ → Bool
  pub eprs_socket_ids : List (String × ℕ)
  pub classical_socket_ids : List (String × ℕ)

abbrev pub max_phy_qubits : ℕ
max_phy_qubits = 16

unfoldable pub init : Context
init = record {
  host_registers = [];
  routines_registers = [];
  qubits = λ i. false;
  eprs_socket_ids = [];
  classical_socket_ids = [];
}

abbrev pub assign : (ℕ → Bool) → ℕ → Bool → ℕ → Bool
assign f i v j = if i == j then v else f j

-- The loop of allocateQubit, with the rounds left and the index.
unfoldable pub first_free : ℕ → ℕ → (ℕ → Bool) → Option ℕ
first_free zero i qubits = none
first_free (suc n) i qubits =
    let rest = first_free n (i + 1) qubits in if qubits i then rest else some i

-- The qubit's id, or 0xFF where all are in use.
unfoldable pub allocate_qubit : Context → ℕ × Context
unfolding first_free
allocate_qubit ctx = elim (first_free max_phy_qubits 0 ctx.qubits) [
  | none ↦ (0xFF, ctx)
  | some i ↦ (i, record ctx { qubits = assign ctx.qubits i true })
]

unfoldable pub release_qubit : ℕ → Context → Context
release_qubit reg ctx = record ctx { qubits = assign ctx.qubits reg false }

unfoldable pub registers_of : ℕ → List (ℕ × LocalRoutineRegisters) → LocalRoutineRegisters
registers_of k [] = no_registers
registers_of k ((j, v) ∷ t) = if j == k then v else registers_of k t

unfoldable pub set_registers :
    ℕ → LocalRoutineRegisters → List (ℕ × LocalRoutineRegisters) → List (ℕ × LocalRoutineRegisters)
set_registers k v [] = (k, v) ∷ []
set_registers k v ((j, w) ∷ t) = if j == k then (k, v) ∷ t else (j, w) ∷ set_registers k v t

allocate_in_routine :
    (LocalRoutineRegisters → Option (ℕ × LocalRoutineRegisters))
    → Option ℕ
    → Context
    → Option (ℕ × Context)
allocate_in_routine allocate none ctx = none
allocate_in_routine allocate (some routine) ctx =
    allocate (registers_of routine ctx.routines_registers) >>= λ (n, regs).
    some (n, record ctx { routines_registers = set_registers routine regs ctx.routines_registers })

allocate_host_register : Option ℕ → Context → Option (ℕ × Context)
unfolding allocate_bounded
allocate_host_register (some routine) ctx = none
allocate_host_register none ctx =
    allocate_bounded 64 ctx.host_registers >>= λ (n, l). some (n, record ctx { host_registers = l })

unfoldable pub allocate_register : RegType → Option ℕ → Context → Option (ℕ × Context)
unfolding allocate_in_routine allocate_host_register
allocate_register local routine ctx = allocate_host_register routine ctx
allocate_register c routine ctx = allocate_in_routine allocate_c_registry routine ctx
allocate_register m routine ctx = allocate_in_routine allocate_m_registry routine ctx
allocate_register q routine ctx = allocate_in_routine allocate_q_registry routine ctx
allocate_register r routine ctx = allocate_in_routine allocate_r_registry routine ctx

unfoldable pub lookup_socket : String → List (String × ℕ) → Option ℕ
lookup_socket k [] = none
lookup_socket k ((j, v) ∷ t) = if str_eq j k then some v else lookup_socket k t

-- The uint8_t that is returned, and the map, whose values are uint32_t.
unfoldable pub allocate_socket : String → List (String × ℕ) → ℕ × List (String × ℕ)
unfolding lookup_socket
allocate_socket remote_id sockets = elim (lookup_socket remote_id sockets) [
  | some id ↦ (id % 2 ^ 8, sockets)
  | none ↦
      let new_socket_id = length sockets in
      (new_socket_id % 2 ^ 8, sockets ++ (remote_id, new_socket_id) ∷ [])
]

unfoldable pub allocate_classical_socket_for_remote : String → Context → ℕ × Context
unfolding allocate_socket
allocate_classical_socket_for_remote remote_id ctx =
    let (id, sockets) = allocate_socket remote_id ctx.classical_socket_ids in
    (id, record ctx { classical_socket_ids = sockets })

unfoldable pub allocate_eprs_socket_for_remote : String → Context → ℕ × Context
unfolding allocate_socket
allocate_eprs_socket_for_remote remote_id ctx =
    let (id, sockets) = allocate_socket remote_id ctx.eprs_socket_ids in
    (id, record ctx { eprs_socket_ids = sockets })
