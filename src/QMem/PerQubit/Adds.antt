-- ===== src/QMem/PerQubit/Adds.antt =====
-- What each step of the grouping adds to the groups.
use qoala_mlir.Common.{
  subst, ℕ, ◌≡◌, refl, sym, ap, ◌∙◌, ◌⊎◌, inl, inr, true, false, ◌&&◌, List, [], ◌∷◌, ◌++◌, Option,
  none, some, ◌==◌, if◌then◌else◌, append_assoc, append_nil, arith, Bool-cases, Option-cases,
  length, bind-some, some-inj, ltb, leb,
}
use qoala_mlir.QMem.PerQubit.{
  Map, lookup, erase, Grouper, same_name, commit_group, push_onto, commit_current_group,
  assign_qubit_id_for_qalloc_op, start_group, add_new_group_for_qalloc, push_back,
  group_definition_with_qalloc, get_qubit_ids, get_group_for_qubits, group_size,
  add_operation_to_group,
}

abbrev pub flatten : List (List ℕ) → List ℕ
flatten [] = []
flatten (g ∷ gs) = g ++ flatten gs

abbrev pub active_ops : Option (List ℕ) → List ℕ
active_ops none = []
active_ops (some ops) = ops

-- All operations in groups, committed ones first.
abbrev pub content : Grouper → List ℕ
content s = flatten s.committed_groups ++ active_ops s.active_group

flatten-snoc : (gs : List (List ℕ)) (g : List ℕ) → flatten (gs ++ g ∷ []) ≡ flatten gs ++ g
flatten-snoc [] g = append_nil g
flatten-snoc (x ∷ gs) g = ap (λ t. x ++ t) (flatten-snoc gs g) ∙ sym (append_assoc x (flatten gs) g)

pub commit-flatten : (s : Grouper) → flatten (commit_current_group s).committed_groups ≡ content s
unfolding commit_current_group
commit-flatten s = go s.active_group
  where
    go :
        (o : Option (List ℕ))
        → flatten (commit_group o s).committed_groups ≡ flatten s.committed_groups ++ active_ops o
    go none = sym (append_nil (flatten s.committed_groups))
    go (some []) = sym (append_nil (flatten s.committed_groups))
    go (some (op ∷ ops)) = flatten-snoc s.committed_groups (op ∷ ops)

pub commit-none : (s : Grouper) → (commit_current_group s).active_group ≡ none
unfolding commit_current_group
commit-none s = go s.active_group refl
  where
    go : (o : Option (List ℕ)) → s.active_group ≡ o → (commit_group o s).active_group ≡ none
    go none e = e
    go (some []) e = refl
    go (some (op ∷ ops)) e = refl

pub commit-content : (s : Grouper) → content (commit_current_group s) ≡ content s
commit-content s =
    rw (commit-none s)
      (append_nil (flatten (commit_current_group s).committed_groups) ∙ commit-flatten s)

start-content :
    (name ops : List ℕ) (s : Grouper) → content (start_group name ops s) ≡ content s ++ ops
unfolding start_group
start-content name ops s = ap (λ t. t ++ ops) (commit-flatten s)

-- With an active group, which is the case behind every call that hands it out.
push-content :
    (op : ℕ) (ops : List ℕ) (s : Grouper)
    → s.active_group ≡ some ops
    → content (push_back op s) ≡ content s ++ op ∷ []
unfolding push_back
push-content op ops s e = rw e (sym (append_assoc (flatten s.committed_groups) ops (op ∷ [])))

commit-declared : (s : Grouper) → (commit_current_group s).declared_qubits ≡ s.declared_qubits
unfolding commit_current_group
commit-declared s = go s.active_group
  where
    go : (o : Option (List ℕ)) → (commit_group o s).declared_qubits ≡ s.declared_qubits
    go none = refl
    go (some []) = refl
    go (some (op ∷ ops)) = refl

start-declared :
    (name ops : List ℕ) (s : Grouper) → (start_group name ops s).declared_qubits ≡ s.declared_qubits
unfolding start_group
start-declared name ops s = commit-declared s

push-declared : (op : ℕ) (s : Grouper) → (push_back op s).declared_qubits ≡ s.declared_qubits
unfolding push_back
push-declared op s = go s.active_group
  where
    go : (o : Option (List ℕ)) → (push_onto op o s).declared_qubits ≡ s.declared_qubits
    go none = refl
    go (some ops) = refl

-- What a step adds to the groups, and that it declares nothing.
pub record Adds (s s' : Grouper) (ops : List ℕ) : Type 0 where
  pub adds : content s' ≡ content s ++ ops
  pub declares :
      (q a : ℕ) → lookup s'.declared_qubits q ≡ some a → lookup s.declared_qubits q ≡ some a

lookup-erased : (m : Map) (k : ℕ) → lookup (erase m k) k ≡ none
unfolding lookup erase
lookup-erased [] k = refl
lookup-erased ((j, v) ∷ m) k = elim (Bool-cases (j == k)) [
  | inl e ↦ rw e (lookup-erased m k)
  | inr e ↦ rw (e, lookup, e) (lookup-erased m k)
]

lookup-erase : (m : Map) (k q a : ℕ) → lookup (erase m k) q ≡ some a → lookup m q ≡ some a
unfolding lookup erase
lookup-erase [] k q a h = h
lookup-erase ((j, v) ∷ m) k q a h = elim (Bool-cases (j == k)) [
  | inl e ↦
      let f : j ≡ k = ground arith in
      let g : lookup (erase m k) q ≡ some a = rw e at h in
      elim (Bool-cases (j == q)) [
        | inl i ↦
            let p : k ≡ q = ground arith in
            let n = rw p at (lookup-erased m k) in absurd (let c = sym n ∙ (rw p at g) in cc)
        | inr i ↦ rw i (lookup-erase m k q a g)
      ]
  | inr e ↦ elim (Bool-cases (j == q)) [
    | inl i ↦ rw i (rw (e, i) at h)
    | inr i ↦ rw i (lookup-erase m k q a (rw (e, i) at h))
  ]
]

assign_lem :
    (a : ℕ) (s : Grouper) (x : ℕ × Grouper)
    → assign_qubit_id_for_qalloc_op a s ≡ some x
    → x ≡ (length s.qubit_ids, record s { qubit_ids = (a, length s.qubit_ids) ∷ s.qubit_ids })
unfolding assign_qubit_id_for_qalloc_op
assign_lem a s x e = elim (Option-cases (lookup s.qubit_ids a)) [
  | inl n ↦ let f = rw (n, assign_qubit_id_for_qalloc_op) at e in sym (some-inj _ x f)
  | inr (old, n) ↦ let f = rw (n, assign_qubit_id_for_qalloc_op) at e in absurd cc
]

add_new_group_lem :
    (a : ℕ) (name : List ℕ) (s g : Grouper)
    → add_new_group_for_qalloc a name s ≡ some g
    → start_group name (a ∷ []) s ≡ g
unfolding add_new_group_for_qalloc
add_new_group_lem a name s g e = elim (Bool-cases (same_name s.active_group_id name)) [
  | inl n ↦ let f = rw n at e in absurd cc
  | inr n ↦ let f = rw n at e in some-inj _ g f
]

abbrev pub with_declared : ℕ → Map → Grouper → Grouper
with_declared op declared s = record (push_back op s) { declared_qubits = declared }

-- What groupDefinitionWithQAlloc does where no assertion fails.
pub group_definition_lem :
    (op q : ℕ) (s s' : Grouper)
    → group_definition_with_qalloc op q s ≡ some s'
    → (a : ℕ) × (name : List ℕ) × (ids : Map) × (lookup s.declared_qubits q ≡ some a)
      × (record (push_back op (start_group name (a ∷ []) (record s { qubit_ids = ids }))) {
        declared_qubits = erase s.declared_qubits q;
      }
          ≡ s')
unfolding group_definition_with_qalloc
group_definition_lem op q s s' e =
    let (a, f, g) = bind-some (lookup s.declared_qubits q) _ s' e in
    let (assigned, h, k) = bind-some (assign_qubit_id_for_qalloc_op a s) _ s' g in
    let (grouped, l, m) =
      bind-some (add_new_group_for_qalloc a (assigned.0 ∷ []) assigned.1) _ s' k in
    let p = assign_lem a s assigned h in
    let r = add_new_group_lem a (assigned.0 ∷ []) assigned.1 grouped l in
    let t = some-inj _ s' m in
    let declared = erase s.declared_qubits q in
    (
      a,
      length s.qubit_ids ∷ [],
      (a, length s.qubit_ids) ∷ s.qubit_ids,
      f,
      ap (λ (x : ℕ × Grouper). with_declared op declared (start_group (x.0 ∷ []) (a ∷ []) x.1))
            (sym p)
          ∙ ap (λ (x : Grouper). with_declared op declared x) r
          ∙ t,
    )

definition-Adds :
    (op q a : ℕ) (name : List ℕ) (ids : Map) (s s' : Grouper)
    → (record (push_back op (start_group name (a ∷ []) (record s { qubit_ids = ids }))) {
      declared_qubits = erase s.declared_qubits q;
    }
        ≡ s')
    → Adds s s' (a ∷ op ∷ [])
unfolding start_group push_back
definition-Adds op q a name ids s s' r = rw (sym r) (record {
  adds = ap (λ t. t ++ a ∷ op ∷ []) (commit-flatten (record s { qubit_ids = ids }));
  declares = λ p b h. lookup-erase s.declared_qubits q p b h;
})

pub group_definition_with_qalloc-Adds :
    (op q : ℕ) (s s' : Grouper)
    → group_definition_with_qalloc op q s ≡ some s'
    → (a : ℕ) × (lookup s.declared_qubits q ≡ some a) × Adds s s' (a ∷ op ∷ [])
group_definition_with_qalloc-Adds op q s s' e =
    let (a, name, ids, f, r) = group_definition_lem op q s s' e in
    (a, f, definition-Adds op q a name ids s s' r)

-- getGroupForQubits hands out the state or one with a new group.
pub get_group_lem :
    (involved : List ℕ) (s s' : Grouper)
    → get_group_for_qubits involved s ≡ some s'
    → ((s ≡ s') × (ops : List ℕ) × (s.active_group ≡ some ops))
      ⊎ ((name : List ℕ) × (start_group name [] s ≡ s'))
unfolding get_group_for_qubits
get_group_lem involved s s' e =
    let (name, _, f) = bind-some (get_qubit_ids involved s) _ s' e in
    elim (Bool-cases (same_name s.active_group_id name)) [
      | inl t ↦ inl (picked s.active_group refl (rw t at f))
      | inr t ↦ inr (name, some-inj (start_group name [] s) s' (rw t at f))
    ]
  where
    picked :
        (o : Option (List ℕ))
        → s.active_group ≡ o
        → elim o as (λ _. Option Grouper) [ none ↦ none | some ops ↦ some s ] ≡ some s'
        → (s ≡ s') × (ops : List ℕ) × (s.active_group ≡ some ops)
    picked none h f = absurd cc
    picked (some ops) h f = (some-inj s s' f, ops, h)

pub get_group_for_qubits-Adds :
    (involved : List ℕ) (s s' : Grouper)
    → get_group_for_qubits involved s ≡ some s'
    → (ops : List ℕ) × (s'.active_group ≡ some ops) × Adds s s' []
unfolding start_group
get_group_for_qubits-Adds involved s s' e = elim (get_group_lem involved s s' e) [
  | inl (r, ops, h) ↦
      rw (sym r) (ops, h, record { adds = sym (append_nil (content s)); declares = λ q a p. p })
  | inr (name, r) ↦ rw (sym r) (
    [],
    refl,
    record {
      adds = start-content name [] s;
      declares = λ q a p. rw (start-declared name [] s) at p;
    },
  )
]

pub Adds-trans :
    (s t u : Grouper) (xs ys : List ℕ) → Adds s t xs → Adds t u ys → Adds s u (xs ++ ys)
Adds-trans s t u xs ys f g = record {
  adds = g.adds ∙ ap (λ c. c ++ ys) f.adds ∙ append_assoc (content s) xs ys;
  declares = λ q a h. f.declares q a (g.declares q a h);
}

pub commit-Adds : (s : Grouper) → Adds s (commit_current_group s) []
commit-Adds s = record {
  adds = commit-content s ∙ sym (append_nil (content s));
  declares = λ q a h. rw (commit-declared s) at h;
}

pub push-Adds :
    (op : ℕ) (ops : List ℕ) (s : Grouper)
    → s.active_group ≡ some ops
    → Adds s (push_back op s) (op ∷ [])
push-Adds op ops s e = record {
  adds = push-content op ops s e;
  declares = λ q a h. rw (push-declared op s) at h;
}

-- What addOperationToGroup does where no assertion fails.
pub add_operation_lem :
    (max_ops op : ℕ) (involved : List ℕ) (s s' : Grouper)
    → add_operation_to_group max_ops op involved s ≡ some s'
    → (current next : Grouper) × (get_group_for_qubits involved s ≡ some current)
      × (((ltb 0 max_ops && leb max_ops (group_size current)) ≡ true)
            × (get_group_for_qubits involved (commit_current_group current) ≡ some next)
          ⊎ ((ltb 0 max_ops && leb max_ops (group_size current)) ≡ false) × (current ≡ next))
      × (push_back op next ≡ s')
unfolding add_operation_to_group
add_operation_lem max_ops op involved s s' e =
    let (current, f, g) = bind-some (get_group_for_qubits involved s) _ s' e in
    let (next, h, k) =
      bind-some
        (if ltb 0 max_ops && leb max_ops (group_size current)
          then get_group_for_qubits involved (commit_current_group current)
          else some current)
        _ s' g in
    (current, next, f, full current next h, some-inj (push_back op next) s' k)
  where
    full :
        (current next : Grouper)
        → (if ltb 0 max_ops && leb max_ops (group_size current)
            then get_group_for_qubits involved (commit_current_group current)
            else some current)
          ≡ some next
        → (((ltb 0 max_ops && leb max_ops (group_size current)) ≡ true)
              × (get_group_for_qubits involved (commit_current_group current) ≡ some next)
            ⊎ ((ltb 0 max_ops && leb max_ops (group_size current)) ≡ false) × (current ≡ next))
    full current next h = elim (Bool-cases (ltb 0 max_ops && leb max_ops (group_size current))) [
      | inl t ↦ inl (t, rw t at h)
      | inr t ↦ inr (t, some-inj current next (rw t at h))
    ]

pub add_operation_to_group-Adds :
    (max_ops op : ℕ) (involved : List ℕ) (s s' : Grouper)
    → add_operation_to_group max_ops op involved s ≡ some s'
    → Adds s s' (op ∷ [])
add_operation_to_group-Adds max_ops op involved s s' e =
    let (current, next, f, g, h) = add_operation_lem max_ops op involved s s' e in
    let (ops, k, l) = get_group_for_qubits-Adds involved s current f in
    elim g [
      | inl (t, m) ↦
          let (ops', k', l') =
            get_group_for_qubits-Adds involved (commit_current_group current) next m in
          let p =
            Adds-trans s current (commit_current_group current) [] [] l (commit-Adds current) in
          let q = Adds-trans s (commit_current_group current) next [] [] p l' in
          rw (sym h)
            (Adds-trans s next (push_back op next) [] (op ∷ []) q (push-Adds op ops' next k'))
      | inr (t, m) ↦
          let k' = subst (λ (x : Grouper). x.active_group ≡ some ops) m k in
          let l' = subst (λ x. Adds s x []) m l in
          rw (sym h)
            (Adds-trans s next (push_back op next) [] (op ∷ []) l' (push-Adds op ops next k'))
    ]
