-- ===== src/QMem/PerQubit/Order.antt =====
-- No operation is lost, repeated or moved: the groups, one after the other, are the operations in the
-- order of the program, each definition behind the allocation of its qubit.
use qoala_mlir.Common.{
  subst, ℕ, ◌≡◌, refl, sym, ap, ◌∙◌, inl, inr, List, [], ◌∷◌, ◌++◌, Option, none, some, ◌==◌,
  append_nil, Bool-cases, Option-cases, bind-some, some-inj,
}
use qoala_mlir.QMem.PerQubit.{
  Kind, qalloc, define, entangle, uses, breaking, stays, Operation, Map, lookup, Grouper,
  register_qalloc_op, register_operation, commit_current_group, group_definition_with_qalloc,
  get_all_final_groups, register_all, classify, cross_block, classify_all, empty_grouper,
  functionize_op_classifier,
}
use qoala_mlir.QMem.PerQubit.Adds.{
  flatten, commit-flatten, content, Adds, Adds-trans, commit-Adds,
  group_definition_with_qalloc-Adds, add_operation_to_group-Adds,
}

-- The allocations of the qubits of the program.
abbrev pub declare : ℕ → Kind → Map → Map
declare op (qalloc q) m = (q, op) ∷ m
declare op _ m = m

abbrev pub allocations : List Operation → Map → Map
allocations [] m = m
allocations (op ∷ ops) m = allocations ops (declare op.id op.kind m)

abbrev pub definition : Map → ℕ → ℕ → List ℕ
definition m op q = elim (lookup m q) [ none ↦ [] | some a ↦ a ∷ op ∷ [] ]

-- What an operation puts into the groups.
abbrev pub grouped_ops : Map → ℕ → Kind → List ℕ
grouped_ops m op (define q) = definition m op q
grouped_ops m op (entangle q) = definition m op q
grouped_ops m op (uses involved) = op ∷ []
grouped_ops m op _ = []

abbrev pub in_order : Map → List Operation → List ℕ
in_order m [] = []
in_order m (op ∷ ops) = grouped_ops m op.id op.kind ++ in_order m ops

Adds-some : (s s' : Grouper) → s ≡ s' → Adds s s' []
Adds-some s s' e =
    rw (sym e) (record { adds = sym (append_nil (content s)); declares = λ q a h. h })

definition-Adds :
    (m : Map) (op q : ℕ) (s s' : Grouper)
    → ((q a : ℕ) → lookup s.declared_qubits q ≡ some a → lookup m q ≡ some a)
    → group_definition_with_qalloc op q s ≡ some s'
    → Adds s s' (definition m op q)
definition-Adds m op q s s' h e =
    let (a, f, r) = group_definition_with_qalloc-Adds op q s s' e in rw (h q a f, definition) r

classify-Adds :
    (m : Map) (max_ops op : ℕ) (k : Kind) (s s' : Grouper)
    → ((q a : ℕ) → lookup s.declared_qubits q ≡ some a → lookup m q ≡ some a)
    → classify max_ops op k s ≡ some s'
    → Adds s s' (grouped_ops m op k)
unfolding classify
classify-Adds m max_ops op stays s s' h e = Adds-some s s' (some-inj s s' e)
classify-Adds m max_ops op (qalloc q) s s' h e = Adds-some s s' (some-inj s s' e)
classify-Adds m max_ops op breaking s s' h e =
    rw (sym (some-inj (commit_current_group s) s' e)) (commit-Adds s)
classify-Adds m max_ops op (define q) s s' h e = definition-Adds m op q s s' h e
classify-Adds m max_ops op (entangle q) s s' h e =
    let (t, f, g) = bind-some (group_definition_with_qalloc op q s) _ s' e in
    let r = some-inj (commit_current_group t) s' g in
    let p =
      Adds-trans s t (commit_current_group t) (definition m op q) []
        (definition-Adds m op q s t h f) (commit-Adds t) in
    rw (sym r) (rw (append_nil (definition m op q)) at p)
classify-Adds m max_ops op (uses []) s s' h e = absurd cc
classify-Adds m max_ops op (uses (a ∷ involved)) s s' h e =
    add_operation_to_group-Adds max_ops op (a ∷ involved) s s' e

cross_block-Adds :
    (current : Option ℕ) (block : ℕ) (s : Grouper) → Adds s (cross_block current block s) []
unfolding cross_block
cross_block-Adds none block s = Adds-some s s refl
cross_block-Adds (some current) block s = elim (Bool-cases (current == block)) [
  | inl e ↦ rw e (Adds-some s s refl)
  | inr e ↦ rw e (commit-Adds s)
]

classify_all-Adds :
    (m : Map) (max_ops : ℕ) (current : Option ℕ) (ops : List Operation) (s s' : Grouper)
    → ((q a : ℕ) → lookup s.declared_qubits q ≡ some a → lookup m q ≡ some a)
    → classify_all max_ops current ops s ≡ some s'
    → Adds s s' (in_order m ops)
unfolding classify_all
classify_all-Adds m max_ops current [] s s' h e = Adds-some s s' (some-inj s s' e)
classify_all-Adds m max_ops current (op ∷ ops) s s' h e =
    let crossed = cross_block current op.block s in
    let c = cross_block-Adds current op.block s in
    let (t, f, g) = bind-some (classify max_ops op.id op.kind crossed) _ s' e in
    let p = classify-Adds m max_ops op.id op.kind crossed t (λ q a i. h q a (c.declares q a i)) f in
    let r = Adds-trans s crossed t [] (grouped_ops m op.id op.kind) c p in
    Adds-trans s t s' (grouped_ops m op.id op.kind) (in_order m ops) r
      (classify_all-Adds m max_ops (some op.block) ops t s' (λ q a i. h q a (r.declares q a i)) g)

register_operation_lem :
    (op : ℕ) (k : Kind) (s s' : Grouper)
    → register_operation op k s ≡ some s'
    → record s { declared_qubits = declare op k s.declared_qubits } ≡ s'
unfolding register_operation register_qalloc_op
register_operation_lem op (qalloc q) s s' e = elim (Option-cases (lookup s.declared_qubits q)) [
  | inl n ↦ some-inj _ s' (rw (register_operation, register_qalloc_op, n) at e)
  | inr (old, n) ↦ let f = rw (register_operation, register_qalloc_op, n) at e in absurd cc
]
register_operation_lem op (define q) s s' e = some-inj s s' e
register_operation_lem op (entangle q) s s' e = some-inj s s' e
register_operation_lem op (uses involved) s s' e = some-inj s s' e
register_operation_lem op breaking s s' e = some-inj s s' e
register_operation_lem op stays s s' e = some-inj s s' e

-- The first loop only declares.
pub register_all_lem :
    (ops : List Operation) (s s' : Grouper)
    → register_all ops s ≡ some s'
    → record s { declared_qubits = allocations ops s.declared_qubits } ≡ s'
unfolding register_all
register_all_lem [] s s' e = some-inj s s' e
register_all_lem (op ∷ ops) s s' e =
    let (t, f, g) = bind-some (register_operation op.id op.kind s) _ s' e in
    let d = register_operation_lem op.id op.kind s t f in
    ap (λ (x : Grouper). record x { declared_qubits = allocations ops x.declared_qubits }) d
    ∙ register_all_lem ops t s' g

-- If no assertion fails, the groups, one after the other, are the operations on qubits in the order of the
-- program, each definition of a qubit directly behind its allocation.
pub functionize_op_classifier-order :
    (max_ops : ℕ) (ops : List Operation) (groups : List (List ℕ))
    → functionize_op_classifier max_ops ops ≡ some groups
    → flatten groups ≡ in_order (allocations ops []) ops
unfolding functionize_op_classifier get_all_final_groups
functionize_op_classifier-order max_ops ops groups e =
    let (registered, f, g) = bind-some (register_all ops empty_grouper) _ groups e in
    let (s, h, k) = bind-some (classify_all max_ops none ops registered) _ groups g in
    let d = register_all_lem ops empty_grouper registered f in
    let r = some-inj (commit_current_group s).committed_groups groups k in
    let a =
      classify_all-Adds (allocations ops []) max_ops none ops registered s
        (λ q v i. subst (λ (x : Grouper). lookup x.declared_qubits q ≡ some v) (sym d) i) h in
    rw (sym r) (
      commit-flatten s
      ∙ a.adds
      ∙ ap (λ (x : Grouper). content x ++ in_order (allocations ops []) ops) (sym d))
