-- ===== src/QMem/PerQubit/Succeeds.antt =====
-- When no assertion of the grouping fails.
use qoala_mlir.Common.{
  ℕ, suc, ◌<◌, ◌≡◌, refl, sym, ap, ◌∙◌, ◌⊎◌, inl, inr, true, false, ◌&&◌, List, [], ◌∷◌, ◌++◌,
  Option, none, some, ◌>>=◌, ◌==◌, elem, All, length, arith, Bool-cases, ltb, leb, subst,
}
use qoala_mlir.QMem.PerQubit.{
  Kind, qalloc, define, entangle, uses, breaking, stays, Operation, Map, Grouper, commit_group,
  push_onto, register_qalloc_op, register_operation, commit_current_group, start_group, push_back,
  group_definition_with_qalloc, lookup, erase, same_name, assign_qubit_id_for_qalloc_op,
  add_new_group_for_qalloc, get_qubit_ids, get_group_for_qubits, group_size, add_operation_to_group,
  get_all_final_groups, register_all, classify, cross_block, classify_all, empty_grouper,
  functionize_op_classifier,
}
use qoala_mlir.QMem.PerQubit.Order.{
  allocations, declare, in_order, register_all_lem, functionize_op_classifier-order,
}
use qoala_mlir.QMem.PerQubit.Adds.{flatten}
use qoala_mlir.QMem.PerQubit.Sizes.{IsSized, functionize_op_classifier-sizes}
use Prim.Native.Nat.{max}

-- One operation, from the allocated and the defined qubits before it to those behind it.
pub data Scoped (m : Map) (defined : List ℕ) : Kind → Map → List ℕ → Type 0 where
  allocates : {q : ℕ} → Scoped m defined (qalloc q) m defined
  breaks : Scoped m defined breaking m defined
  remains : Scoped m defined stays m defined
  defines :
      {q a : ℕ}
      → lookup m q ≡ some a
      → elem a defined ≡ false
      → Scoped m defined (define q) (erase m q) (a ∷ defined)
  entangles :
      {q a : ℕ}
      → lookup m q ≡ some a
      → elem a defined ≡ false
      → Scoped m defined (entangle q) (erase m q) (a ∷ defined)
  reads :
      {a : ℕ} {involved : List ℕ}
      → All (λ b. elem b defined ≡ true) (a ∷ involved)
      → Scoped m defined (uses (a ∷ involved)) m defined

-- Every qubit is defined once, after its allocation, and used after its definition.
pub data IsScoped : Map → List ℕ → List Operation → Type 0 where
  done : {m : Map} {defined : List ℕ} → IsScoped m defined []
  next :
      {m m' : Map} {defined defined' : List ℕ} {op : Operation} {ops : List Operation}
      → Scoped m defined op.kind m' defined'
      → IsScoped m' defined' ops
      → IsScoped m defined (op ∷ ops)

-- No qubit is allocated twice.
abbrev pub DeclaresOnce : Map → List Operation → Type 0
DeclaresOnce m [] = Unit
DeclaresOnce m (op ∷ ops) =
    ((q : ℕ) → op.kind ≡ qalloc q → lookup m q ≡ none) × DeclaresOnce (declare op.id op.kind m) ops

-- The grouper's maps are those of the scope, and the active name is one of numbers given out.
record IsReady (m : Map) (defined : List ℕ) (s : Grouper) : Type 0 where
  pub declared : s.declared_qubits ≡ m
  pub known :
      (a : ℕ)
      → elem a defined ≡ true
      → (i : ℕ) × (lookup s.qubit_ids a ≡ some i) × (i < length s.qubit_ids)
  pub unknown : (a : ℕ) → elem a defined ≡ false → lookup s.qubit_ids a ≡ none
  pub names : All (λ i. i < length s.qubit_ids) s.active_group_id
  pub active : (s.active_group_id ≡ []) ⊎ ((ops : List ℕ) × (s.active_group ≡ some ops))

unnamed : (xs name : List ℕ) (n : ℕ) → xs ≡ [] → length name ≡ suc n → same_name xs name ≡ false
unfolding same_name
unnamed [] [] n e l = absurd (omega arith)
unnamed [] (a ∷ name) n e l = refl
unnamed (x ∷ xs) name n e l = absurd cc

new_name : (n : ℕ) (xs : List ℕ) → All (λ i. i < n) xs → same_name xs (n ∷ []) ≡ false
unfolding same_name
new_name n [] h = refl
new_name n (x ∷ xs) (l, h) = let f : (x == n) ≡ false = ground arith in rw f refl

module _ (m : Map) (defined : List ℕ) where
  commit-IsReady : (s : Grouper) → IsReady m defined s → IsReady m defined (commit_current_group s)
  unfolding commit_current_group
  commit-IsReady s h = go s.active_group
    where
      go : (o : Option (List ℕ)) → IsReady m defined (commit_group o s)
      go none = h
      go (some []) = record {
        declared = h.declared;
        known = h.known;
        unknown = h.unknown;
        names = tt;
        active = inl refl;
      }
      go (some (op ∷ ops)) = record {
        declared = h.declared;
        known = h.known;
        unknown = h.unknown;
        names = tt;
        active = inl refl;
      }

  qubit_ids-commit : (s : Grouper) → (commit_current_group s).qubit_ids ≡ s.qubit_ids
  unfolding commit_current_group
  qubit_ids-commit s = go s.active_group
    where
      go : (o : Option (List ℕ)) → (commit_group o s).qubit_ids ≡ s.qubit_ids
      go none = refl
      go (some []) = refl
      go (some (op ∷ ops)) = refl

  start-IsReady :
      (name ops : List ℕ) (s : Grouper)
      → All (λ i. i < length s.qubit_ids) name
      → IsReady m defined s
      → IsReady m defined (start_group name ops s)
  unfolding start_group
  start-IsReady name ops s n h =
      let c = commit-IsReady s h in
      record {
        declared = c.declared;
        known = c.known;
        unknown = c.unknown;
        names = subst (λ (ids : Map). All (λ i. i < length ids) name) (sym (qubit_ids-commit s)) n;
        active = inr (ops, refl);
      }

  push-IsReady : (op : ℕ) (s : Grouper) → IsReady m defined s → IsReady m defined (push_back op s)
  unfolding push_back
  push-IsReady op s h = go s.active_group
    where
      go : (o : Option (List ℕ)) → IsReady m defined (push_onto op o s)
      go none = h
      go (some ops) = record {
        declared = h.declared;
        known = h.known;
        unknown = h.unknown;
        names = h.names;
        active = inr (ops ++ op ∷ [], refl);
      }

  get_qubit_ids-known :
      (s : Grouper) (involved : List ℕ)
      → IsReady m defined s
      → All (λ b. elem b defined ≡ true) involved
      → (name : List ℕ) × (get_qubit_ids involved s ≡ some name)
        × All (λ i. i < length s.qubit_ids) name
        × (length name ≡ length involved)
  unfolding get_qubit_ids
  get_qubit_ids-known s [] h d = ([], refl, tt, refl)
  get_qubit_ids-known s (a ∷ involved) h (d, ds) =
      let (i, e, l) = h.known a d in
      let (name, f, n, k) = get_qubit_ids-known s involved h ds in
      (i ∷ name, rw (e, f) refl, (l, n), ap suc k)

  get_group-succeeds :
      (s : Grouper) (a : ℕ) (involved : List ℕ)
      → IsReady m defined s
      → All (λ b. elem b defined ≡ true) (a ∷ involved)
      → (s' : Grouper) × (get_group_for_qubits (a ∷ involved) s ≡ some s') × IsReady m defined s'
  unfolding get_group_for_qubits same_name
  get_group-succeeds s a involved h d =
      let (name, e, n, k) = get_qubit_ids-known s (a ∷ involved) h d in
      elim (Bool-cases (same_name s.active_group_id name)) [
        | inr t ↦ (
          start_group name [] s,
          rw (get_group_for_qubits, e, ◌>>=◌, t) refl,
          start-IsReady name [] s n h,
        )
        | inl t ↦ elim h.active [
          | inl z ↦
              let c = unnamed s.active_group_id name (length involved) z k in
              absurd (let x : true ≡ false = sym t ∙ c in cc)
          | inr (ops, o) ↦ (s, rw (get_group_for_qubits, e, ◌>>=◌, t) (simp o refl), h)
        ]
      ]

  add_operation-succeeds :
      (max_ops op : ℕ) (s : Grouper) (a : ℕ) (involved : List ℕ)
      → IsReady m defined s
      → All (λ b. elem b defined ≡ true) (a ∷ involved)
      → (s' : Grouper) × (add_operation_to_group max_ops op (a ∷ involved) s ≡ some s')
        × IsReady m defined s'
  unfolding add_operation_to_group
  add_operation-succeeds max_ops op s a involved h d =
      let (current, e, r) = get_group-succeeds s a involved h d in
      let (fresh, f, t) =
        get_group-succeeds (commit_current_group current) a involved (commit-IsReady current r) d in
      elim (Bool-cases (ltb 0 max_ops && leb max_ops (group_size current))) [
        | inl full ↦ (
          push_back op fresh,
          rw (add_operation_to_group, e, ◌>>=◌, full, f) refl,
          push-IsReady op fresh t,
        )
        | inr room ↦ (
          push_back op current,
          rw (add_operation_to_group, e, ◌>>=◌, room) refl,
          push-IsReady op current r,
        )
      ]

  known-grow :
      (a : ℕ) (s : Grouper)
      → IsReady m defined s
      → (b : ℕ) → elem b (a ∷ defined) ≡ true
      → (i : ℕ) × (lookup ((a, length s.qubit_ids) ∷ s.qubit_ids) b ≡ some i)
        × (i < suc (length s.qubit_ids))
  unfolding lookup
  known-grow a s h b k = elim (Bool-cases (a == b)) [
    | inl e ↦ (length s.qubit_ids, rw e refl, omega arith)
    | inr e ↦ let (i, f, l) = h.known b (ground arith) in (i, rw e f, omega arith)
  ]

  unknown-grow :
      (a : ℕ) (s : Grouper)
      → IsReady m defined s
      → (b : ℕ) → elem b (a ∷ defined) ≡ false
      → lookup ((a, length s.qubit_ids) ∷ s.qubit_ids) b ≡ none
  unfolding lookup
  unknown-grow a s h b k =
      let e : (a == b) ≡ false = ground arith in rw e (h.unknown b (ground arith))

  definition-succeeds :
      (op q a : ℕ) (s : Grouper)
      → IsReady m defined s
      → lookup m q ≡ some a
      → elem a defined ≡ false
      → (s' : Grouper) × (group_definition_with_qalloc op q s ≡ some s')
        × IsReady (erase m q) (a ∷ defined) s'
  unfolding group_definition_with_qalloc assign_qubit_id_for_qalloc_op add_new_group_for_qalloc
      push_back start_group
  definition-succeeds op q a s h e n =
      let l = subst (λ (x : Map). lookup x q ≡ some a) (sym h.declared) e in
      let u = h.unknown a n in
      let ids = qubit_ids-commit (assigned s) in
      let v = new_name (length s.qubit_ids) s.active_group_id h.names in
      (
        record (push_back op (start_group (length s.qubit_ids ∷ []) (a ∷ []) (assigned s))) {
          declared_qubits = erase s.declared_qubits q;
        },
        rw
            (
              group_definition_with_qalloc, l, ◌>>=◌, assign_qubit_id_for_qalloc_op, u,
              add_new_group_for_qalloc, v,
            )
            refl,
        record {
          declared = ap (λ x. erase x q) h.declared;
          known = λ b k. rw ids (known-grow a s h b k);
          unknown = λ b k. rw ids (unknown-grow a s h b k);
          names = rw ids (omega arith, tt);
          active = inr (a ∷ op ∷ [], refl);
        },
      )
    where
      assigned : Grouper → Grouper
      assigned s = record s { qubit_ids = (a, length s.qubit_ids) ∷ s.qubit_ids }

classify-succeeds :
    (max_ops op : ℕ) (k : Kind) (m m' : Map) (defined defined' : List ℕ) (s : Grouper)
    → Scoped m defined k m' defined'
    → IsReady m defined s
    → (s' : Grouper) × (classify max_ops op k s ≡ some s') × IsReady m' defined' s'
unfolding classify
classify-succeeds max_ops op k m m' defined defined' s allocates h = (s, refl, h)
classify-succeeds max_ops op k m m' defined defined' s breaks h =
    (commit_current_group s, refl, commit-IsReady m defined s h)
classify-succeeds max_ops op k m m' defined defined' s remains h = (s, refl, h)
classify-succeeds max_ops op k m m' defined defined' s (defines {q} {a} e n) h =
    definition-succeeds m defined op q a s h e n
classify-succeeds max_ops op k m m' defined defined' s (entangles {q} {a} e n) h =
    let (t, f, r) = definition-succeeds m defined op q a s h e n in
    (commit_current_group t, rw f refl, commit-IsReady (erase m q) (a ∷ defined) t r)
classify-succeeds max_ops op k m m' defined defined' s (reads {a} {involved} d) h =
    add_operation-succeeds m defined max_ops op s a involved h d

cross_block-IsReady :
    (m : Map) (defined : List ℕ) (current : Option ℕ) (block : ℕ) (s : Grouper)
    → IsReady m defined s
    → IsReady m defined (cross_block current block s)
unfolding cross_block
cross_block-IsReady m defined none block s h = h
cross_block-IsReady m defined (some current) block s h = elim (Bool-cases (current == block)) [
  | inl e ↦ rw e h
  | inr e ↦ rw e (commit-IsReady m defined s h)
]

classify_all-succeeds :
    (max_ops : ℕ) (m : Map) (defined : List ℕ) (current : Option ℕ) (ops : List Operation)
    (s : Grouper)
    → IsScoped m defined ops
    → IsReady m defined s
    → (s' : Grouper) × (classify_all max_ops current ops s ≡ some s')
unfolding classify_all
classify_all-succeeds max_ops m defined current [] s done h = (s, refl)
classify_all-succeeds max_ops m defined current (op ∷ ops) s
      (next {m' = m'} {defined' = defined'} c r) h =
    let crossed = cross_block current op.block s in
    let (t, e, k) =
      classify-succeeds max_ops op.id op.kind m m' defined defined' crossed c
        (cross_block-IsReady m defined current op.block s h) in
    let (s', f) = classify_all-succeeds max_ops m' defined' (some op.block) ops t r k in
    (s', rw e f)

register-succeeds :
    (op : ℕ) (k : Kind) (s : Grouper)
    → ((q : ℕ) → k ≡ qalloc q → lookup s.declared_qubits q ≡ none)
    → (s' : Grouper) × (register_operation op k s ≡ some s')
      × (s'.declared_qubits ≡ declare op k s.declared_qubits)
unfolding register_operation register_qalloc_op
register-succeeds op (qalloc q) s h =
    let n = h q refl in
    (
      record s { declared_qubits = (q, op) ∷ s.declared_qubits },
      rw (register_operation, register_qalloc_op, n) refl,
      refl,
    )
register-succeeds op (define q) s h = (s, refl, refl)
register-succeeds op (entangle q) s h = (s, refl, refl)
register-succeeds op (uses involved) s h = (s, refl, refl)
register-succeeds op breaking s h = (s, refl, refl)
register-succeeds op stays s h = (s, refl, refl)

register_all-succeeds :
    (ops : List Operation) (s : Grouper)
    → DeclaresOnce s.declared_qubits ops
    → (s' : Grouper) × (register_all ops s ≡ some s')
unfolding register_all
register_all-succeeds [] s h = (s, refl)
register_all-succeeds (op ∷ ops) s (h, hs) =
    let (t, e, d) = register-succeeds op.id op.kind s h in
    let (s', f) = register_all-succeeds ops t (rw d hs) in (s', rw e f)

functionize_op_classifier-succeeds :
    (max_ops : ℕ) (ops : List Operation)
    → DeclaresOnce [] ops
    → IsScoped (allocations ops []) [] ops
    → (groups : List (List ℕ)) × (functionize_op_classifier max_ops ops ≡ some groups)
unfolding functionize_op_classifier
functionize_op_classifier-succeeds max_ops ops once scoped =
    let (registered, e) = register_all-succeeds ops empty_grouper once in
    let d = register_all_lem ops empty_grouper registered e in
    let start : IsReady (allocations ops []) [] registered =
      subst (IsReady (allocations ops []) []) d (record {
        declared = refl;
        known = λ a k. absurd cc;
        unknown = λ a k. refl;
        names = tt;
        active = inl refl;
      }) in
    let (s, f) =
      classify_all-succeeds max_ops (allocations ops []) [] none ops registered scoped start in
    (get_all_final_groups s, rw (functionize_op_classifier, e, ◌>>=◌, f) refl)

-- For a program in which no qubit is allocated twice, and each is defined once and used after that, no
-- assertion fails, and the groups, one after the other, are the operations on qubits in the order of the
-- program, each definition directly behind its allocation.
pub functionize_op_classifier_lem :
    (max_ops : ℕ) (ops : List Operation)
    → DeclaresOnce [] ops
    → IsScoped (allocations ops []) [] ops
    → (groups : List (List ℕ)) × (functionize_op_classifier max_ops ops ≡ some groups)
      × (flatten groups ≡ in_order (allocations ops []) ops)
functionize_op_classifier_lem max_ops ops once scoped =
    let (groups, e) = functionize_op_classifier-succeeds max_ops ops once scoped in
    (groups, e, functionize_op_classifier-order max_ops ops groups e)

-- For such a program and a threshold that is not 0, no group is empty, and none has more operations than the
-- threshold, or than two where the threshold is 1.
pub functionize_op_classifier-bounded :
    (max_ops : ℕ) (ops : List Operation)
    → 0 < max_ops
    → DeclaresOnce [] ops
    → IsScoped (allocations ops []) [] ops
    → (groups : List (List ℕ)) × (functionize_op_classifier max_ops ops ≡ some groups)
      × All (IsSized (max 2 max_ops)) groups
functionize_op_classifier-bounded max_ops ops positive once scoped =
    let (groups, e) = functionize_op_classifier-succeeds max_ops ops once scoped in
    (groups, e, functionize_op_classifier-sizes max_ops ops groups positive e)
