-- ===== src/QMem/PerQubit.antt =====
-- lib/Analysis/QMem/PerQubitOpClassifier.cpp: operations that follow each other on the same qubits form a
-- group. Operations and qubit values are numbers, maps are association lists, and a failed assertion is
-- `none`. A group name is the list of its qubit numbers, "" is the empty list. The pointer to a group that
-- operations are added to always is the active one.
pub mod Adds
pub mod Order
pub mod Sizes
pub mod Succeeds
mod Checks
use qoala_mlir.Common.{
  ℕ, zero, suc, ◌+◌, Bool, true, false, not, ◌&&◌, ◌||◌, List, [], ◌∷◌, ◌++◌, Option, none, some,
  ◌>>=◌, ◌==◌, if◌then◌else◌, length, leb, ltb,
}

-- `define` is init, `entangle` eprs and eprs_measure, with the qubit they define; `uses` is any other
-- operation on qubits, with the qalloc operations of its qubits. `breaking` is a receive; `stays` remains in
-- the body or is not of the QMem dialect.
pub data Kind : Type 0 where
  qalloc define entangle : ℕ → Kind
  uses : List ℕ → Kind
  breaking stays : Kind

pub record Operation : Type 0 where
  pub id : ℕ
  pub block : ℕ
  pub kind : Kind

abbrev pub Map : Type 0
Map = List (ℕ × ℕ)

unfoldable pub lookup : Map → ℕ → Option ℕ
lookup [] k = none
lookup ((j, v) ∷ m) k = if j == k then some v else lookup m k

unfoldable pub erase : Map → ℕ → Map
erase [] k = []
erase ((j, v) ∷ m) k = if j == k then erase m k else (j, v) ∷ erase m k

-- PerQubitGrouper, but for maxOpsPerGroup.
pub record Grouper : Type 0 where
  pub qubit_ids : Map
  pub committed_groups : List (List ℕ)
  pub active_group_id : List ℕ
  pub active_group : Option (List ℕ)
  pub declared_qubits : Map

unfoldable pub same_name : List ℕ → List ℕ → Bool
same_name [] [] = true
same_name [] (b ∷ bs) = false
same_name (a ∷ rest) [] = false
same_name (a ∷ rest) (b ∷ bs) = a == b && same_name rest bs

unfoldable pub register_qalloc_op : ℕ → ℕ → Grouper → Option Grouper
unfolding lookup
register_qalloc_op op q s = elim (lookup s.declared_qubits q) [
  | some old ↦ none
  | none ↦ some (record s { declared_qubits = (q, op) ∷ s.declared_qubits })
]

-- An empty group is dropped.
abbrev pub commit_group : Option (List ℕ) → Grouper → Grouper
commit_group none s = s
commit_group (some []) s = record s { active_group_id = []; active_group = none }
commit_group (some (op ∷ ops)) s = record s {
  committed_groups = s.committed_groups ++ (op ∷ ops) ∷ [];
  active_group_id = [];
  active_group = none;
}

unfoldable pub commit_current_group : Grouper → Grouper
commit_current_group s = commit_group s.active_group s

unfoldable pub assign_qubit_id_for_qalloc_op : ℕ → Grouper → Option (ℕ × Grouper)
unfolding lookup
assign_qubit_id_for_qalloc_op qalloc_op s = elim (lookup s.qubit_ids qalloc_op) [
  | some old ↦ none
  | none ↦
      let next = length s.qubit_ids in
      some (next, record s { qubit_ids = (qalloc_op, next) ∷ s.qubit_ids })
]

unfoldable pub get_qubit_ids : List ℕ → Grouper → Option (List ℕ)
unfolding lookup
get_qubit_ids [] s = some []
get_qubit_ids (op ∷ ops) s = do
  i ← lookup s.qubit_ids op
  rest ← get_qubit_ids ops s
  some (i ∷ rest)

unfoldable pub start_group : List ℕ → List ℕ → Grouper → Grouper
unfolding commit_current_group
start_group name ops s = record (commit_current_group s) {
  active_group_id = name;
  active_group = some ops;
}

unfoldable pub add_new_group_for_qalloc : ℕ → List ℕ → Grouper → Option Grouper
unfolding same_name start_group
add_new_group_for_qalloc qalloc_op name s =
    if same_name s.active_group_id name then none else some (start_group name (qalloc_op ∷ []) s)

-- currentOpsGroup->push_back(op)
abbrev pub push_onto : ℕ → Option (List ℕ) → Grouper → Grouper
push_onto op none s = s
push_onto op (some ops) s = record s { active_group = some (ops ++ op ∷ []) }

unfoldable pub push_back : ℕ → Grouper → Grouper
push_back op s = push_onto op s.active_group s

unfoldable pub group_definition_with_qalloc : ℕ → ℕ → Grouper → Option Grouper
unfolding lookup assign_qubit_id_for_qalloc_op add_new_group_for_qalloc push_back erase
group_definition_with_qalloc op q s = do
  qalloc_op ← lookup s.declared_qubits q
  assigned ← assign_qubit_id_for_qalloc_op qalloc_op s
  grouped ← add_new_group_for_qalloc qalloc_op (assigned.0 ∷ []) assigned.1
  some (record (push_back op grouped) { declared_qubits = erase s.declared_qubits q })

-- The active group is the one for the qubits, or else a new one; an active name without a group is
-- std::bad_optional_access.
unfoldable pub get_group_for_qubits : List ℕ → Grouper → Option Grouper
unfolding get_qubit_ids same_name start_group
get_group_for_qubits operations s = get_qubit_ids operations s >>= λ name.
    if same_name s.active_group_id name
    then elim s.active_group [ none ↦ none | some ops ↦ some s ]
    else some (start_group name [] s)

abbrev pub group_size : Grouper → ℕ
group_size s = elim s.active_group [ none ↦ 0 | some ops ↦ length ops ]

-- With a threshold that is not 0, a full group is committed first.
unfoldable pub add_operation_to_group : ℕ → ℕ → List ℕ → Grouper → Option Grouper
unfolding get_group_for_qubits commit_current_group push_back
add_operation_to_group max_ops op involved s = do
  current ← get_group_for_qubits involved s
  next ←
      (if ltb 0 max_ops && leb max_ops (group_size current)
        then get_group_for_qubits involved (commit_current_group current)
        else some current)
  some (push_back op next)

unfoldable pub get_all_final_groups : Grouper → List (List ℕ)
unfolding commit_current_group
get_all_final_groups s = (commit_current_group s).committed_groups

-- The first loop of functionizeOpClassifier.
unfoldable pub register_operation : ℕ → Kind → Grouper → Option Grouper
unfolding register_qalloc_op
register_operation op (qalloc q) s = register_qalloc_op op q s
register_operation op _ s = some s

unfoldable pub register_all : List Operation → Grouper → Option Grouper
unfolding register_operation
register_all [] s = some s
register_all (op ∷ ops) s = register_operation op.id op.kind s >>= register_all ops

-- The last loop's body, behind the block boundary; entanglement requests are not grouped.
unfoldable pub classify : ℕ → ℕ → Kind → Grouper → Option Grouper
unfolding group_definition_with_qalloc commit_current_group add_operation_to_group
classify max_ops op stays s = some s
classify max_ops op breaking s = some (commit_current_group s)
classify max_ops op (qalloc q) s = some s
classify max_ops op (define q) s = group_definition_with_qalloc op q s
classify max_ops op (entangle q) s =
    group_definition_with_qalloc op q s >>= λ grouped. some (commit_current_group grouped)
classify max_ops op (uses []) s = none
classify max_ops op (uses (a ∷ involved)) s = add_operation_to_group max_ops op (a ∷ involved) s

-- A group ends at the end of a block.
unfoldable pub cross_block : Option ℕ → ℕ → Grouper → Grouper
unfolding commit_current_group
cross_block none block s = s
cross_block (some current) block s = if current == block then s else commit_current_group s

unfoldable pub classify_all : ℕ → Option ℕ → List Operation → Grouper → Option Grouper
unfolding classify cross_block
classify_all max_ops current [] s = some s
classify_all max_ops current (op ∷ ops) s =
    classify max_ops op.id op.kind (cross_block current op.block s)
    >>= classify_all max_ops (some op.block) ops

abbrev pub empty_grouper : Grouper
empty_grouper = record {
  qubit_ids = [];
  committed_groups = [];
  active_group_id = [];
  active_group = none;
  declared_qubits = [];
}

unfoldable pub functionize_op_classifier : ℕ → List Operation → Option (List (List ℕ))
unfolding register_all classify_all get_all_final_groups
functionize_op_classifier max_ops ops = do
  registered ← register_all ops empty_grouper
  s ← classify_all max_ops none ops registered
  some (get_all_final_groups s)
