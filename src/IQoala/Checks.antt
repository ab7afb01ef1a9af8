-- ===== src/IQoala/Checks.antt =====
-- The theorems about lib/Target/iQoala at concrete inputs.
use Prim.Native.String.{String}
use qoala_mlir.Common.{
  ℕ, ◌<◌, ◌≡◌, ◌≢◌, refl, true, false, List, [], ◌∷◌, none, some, arith, ◌⊎◌, length,
}
use qoala_mlir.IQoala.Program.{
  local, r, q, RegReference, local_register, register, expression, symbol_ref, run_subroutine,
}
use qoala_mlir.IQoala.Context.{
  Context, init, allocate_qubit, first_free, assign, allocate_register, allocate_socket,
  lookup_socket,
}
use qoala_mlir.IQoala.Context.Qubits.{allocate_qubit_lem, History, Tracks, History-Tracks}
use qoala_mlir.IQoala.Context.Registers.{
  upto, allocate_many, allocate_many-upto, allocate_register-full,
}
use qoala_mlir.IQoala.Context.Sockets.{sockets_after, allocate_socket-injective}
use qoala_mlir.IQoala.Routine.{
  VirtualIds, all_ids, increment, resolve, LocalQuantumRoutine, register_qubit, lookup_value,
  emplace,
}
use qoala_mlir.IQoala.Routine.Qubits.{resolve_lem, IsConsistent, Reachable, Reachable-IsConsistent}
use qoala_mlir.Common.Int.{pos}
use qoala_mlir.IQoala.Program.{Instruction, Opcode, instruction_ref}
use qoala_mlir.IQoala.Routine.{resolve_internal_instr_refs}
use qoala_mlir.IQoala.Routine.Branches.{aim_all, resolve_internal_instr_refs_lem}
use qoala_mlir.IQoala.Meta.{
  MetaSection, add_classical_socket_for_remote, get_classical_socket_for_remote,
}
use qoala_mlir.IQoala.Meta.Lookups.{get_classical_socket_for_remote-add_classical_socket_for_remote}
use qoala_mlir.IQoala.Operands.{Token, create_register_operand}
use qoala_mlir.IQoala.NetQasm as NetQasm
use qoala_mlir.IQoala.NetQasm.Printing.{build-print_netqasm}
use qoala_mlir.IQoala.HostAsm as HostAsm
use qoala_mlir.IQoala.HostAsm.Builds.{build-print_host}

abbrev ids : VirtualIds
ids = record { id_type = all_ids; args = 3 ∷ 5 ∷ [] }

resolve_example :
    ((resolve ids).id_type ≡ all_ids) × (length ids.args ≡ 1) × ((resolve ids).args ≡ ids.args)
    ⊎ ((resolve ids).id_type ≡ increment) × (length ids.args ≢ 1) × ((resolve ids).args ≡ ids.args)
resolve_example = resolve_lem ids

-- A routine that has registered the value 7 for the qubit 0.
abbrev one_value : LocalQuantumRoutine
one_value = record {
  qubit_map = (7, 0) ∷ [];
  uses_qubits = 0 ∷ [];
  keeps_qubits = 0 ∷ [];
  params = [];
  returns = [];
}

one_value-Reachable : Reachable one_value
unfolding register_qubit lookup_value emplace
one_value-Reachable = Reachable.register 7 0 Reachable.start (λ m. absurd m) refl

Reachable-IsConsistent_example : IsConsistent one_value
Reachable-IsConsistent_example = Reachable-IsConsistent one_value-Reachable

allocate_qubit_example :
    ((allocate_qubit init ≡ (0xFF, init)) × ((j : ℕ) → j < 16 → init.qubits j ≡ true))
    ⊎ ((k : ℕ) × (k < 16)
        × (init.qubits k ≡ false)
        × ((j : ℕ) → j < k → init.qubits j ≡ true)
        × (allocate_qubit init ≡ (k, record init { qubits = assign init.qubits k true })))
allocate_qubit_example = allocate_qubit_lem init

first_is_0 : (allocate_qubit init).0 ≢ 0xFF
unfolding allocate_qubit first_free init
first_is_0 e = omega (arith, e)

History-Tracks_example : Tracks (allocate_qubit init).1 ((allocate_qubit init).0 ∷ [])
History-Tracks_example = History-Tracks (History.allocated History.start first_is_0)

allocate_many-upto_example :
    (ctx : Context) × (allocate_many 2 r (some 5) init ≡ some (0 ∷ 1 ∷ [], ctx))
allocate_many-upto_example = allocate_many-upto 2 r (some 5) tt (omega arith)

abbrev full_host : Context
full_host = record {
  host_registers = upto 64;
  routines_registers = [];
  qubits = λ i. false;
  eprs_socket_ids = [];
  classical_socket_ids = [];
}

allocate_register-full_example : allocate_register local none full_host ≡ none
allocate_register-full_example = allocate_register-full local none full_host (λ e. absurd cc) refl

abbrev three_sockets : List (String × ℕ)
three_sockets =
    (allocate_socket "carol" (allocate_socket "bob" (sockets_after ("alice" ∷ []) [])).1).1

allocate_socket-injective_example :
    ((allocate_socket "bob" (sockets_after ("alice" ∷ []) [])).0
      ≢ (allocate_socket "carol" (allocate_socket "bob" (sockets_after ("alice" ∷ []) [])).1).0)
    × (allocate_socket "bob" three_sockets
        ≡ ((allocate_socket "bob" (sockets_after ("alice" ∷ []) [])).0, three_sockets))
unfolding allocate_socket lookup_socket
allocate_socket-injective_example =
    allocate_socket-injective ("alice" ∷ []) "bob" "carol" (omega arith) (λ e. absurd cc)

abbrev q1 : RegReference
q1 = record { reg_type = q; num = 1 }

abbrev x_on_q1 : NetQasm.NetQasmInstr
x_on_q1 = record { op_code = NetQasm.gate_x; operands = register q1 ∷ [] }

build-print_netqasm_example : (tokens : List Token) × (NetQasm.print x_on_q1 ≡ some tokens)
unfolding NetQasm.build NetQasm.mapped_operands NetQasm.check_operands create_register_operand
build-print_netqasm_example =
    build-print_netqasm NetQasm.gate_x [] false [] (some q1 ∷ []) [] [] x_on_q1 refl refl

abbrev host2 : RegReference
host2 = record { reg_type = local; num = 2 }

abbrev call_main : HostAsm.HostInstr
call_main = record {
  op_code = run_subroutine;
  instr_type = HostAsm.cl_type;
  num_results = 1;
  operands = expression (symbol_ref "main") ∷ local_register host2 ∷ [];
}

build-print_host_example : (tokens : List Token) × (HostAsm.print call_main ≡ some tokens)
unfolding HostAsm.build HostAsm.mapped_operands HostAsm.check_operands HostAsm.check_call
    HostAsm.callee_first create_register_operand
build-print_host_example =
    build-print_host run_subroutine (host2 ∷ []) false [] [] (expression (symbol_ref "main") ∷ [])
      [] call_main refl refl

-- A gate, and a branch back to it.
abbrev looping : List Instruction
looping =
    record { original_op = 10; opcode = Opcode.add; operands = [] }
    ∷ record {
      original_op = 20;
      opcode = Opcode.jump;
      operands = expression (instruction_ref 10 (pos 0) false) ∷ [];
    }
    ∷ []

resolve_internal_instr_refs_example :
    resolve_internal_instr_refs looping ≡ some (aim_all (10 ∷ 20 ∷ []) 0 looping)
resolve_internal_instr_refs_example =
    resolve_internal_instr_refs_lem looping (refl, (refl, tt)) refl

abbrev no_sockets : MetaSection
no_sockets = record {
  name = "main";
  global_params = [];
  classical_sockets_map = [];
  eprs_sockets_map = [];
  remote_param_names = [];
}

get_classical_socket_example :
    (get_classical_socket_for_remote "bob" (add_classical_socket_for_remote "bob" 3 no_sockets)
      ≡ elim (get_classical_socket_for_remote "bob" no_sockets) [
        | none ↦ some 3
        | some old ↦ some old
      ])
    × (get_classical_socket_for_remote "carol" (add_classical_socket_for_remote "bob" 3 no_sockets)
        ≡ get_classical_socket_for_remote "carol" no_sockets)
get_classical_socket_example =
    get_classical_socket_for_remote-add_classical_socket_for_remote "bob" "carol" 3 no_sockets
      (omega arith) (λ e. absurd cc)
