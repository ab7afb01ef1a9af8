-- ===== src/QMem/PerQubit/Sizes.antt =====
-- How large the groups become.
use qoala_mlir.Common.{
  ℕ, suc, ◌≤◌, ◌<◌, ◌≡◌, refl, sym, ◌∙◌, inl, inr, List, [], ◌∷◌, Option, none, some, ◌==◌, All,
  All-append, length, length-append, arith, Bool-cases, bind-some, some-inj, subst,
}
use qoala_mlir.QMem.PerQubit.{
  Kind, qalloc, define, entangle, uses, breaking, stays, Operation, Grouper, commit_group,
  push_onto, commit_current_group, start_group, push_back, group_definition_with_qalloc,
  get_group_for_qubits, group_size, add_operation_to_group, get_all_final_groups, register_all,
  classify, cross_block, classify_all, empty_grouper, functionize_op_classifier,
}
use Prim.Native.Nat.{max}
use qoala_mlir.QMem.PerQubit.Order.{register_all_lem}
use qoala_mlir.QMem.PerQubit.Adds.{
  active_ops, commit-none, group_definition_lem, get_group_lem, add_operation_lem,
}

module _ (bound : ℕ) where
  abbrev pub IsSized : List ℕ → Type 0
  IsSized g = (0 < length g) × (length g ≤ bound)

  pub record AreSized (s : Grouper) : Type 0 where
    pub committed : All IsSized s.committed_groups
    pub active : length (active_ops s.active_group) ≤ bound

  commit-AreSized : (s : Grouper) → AreSized s → AreSized (commit_current_group s)
  unfolding commit_current_group
  commit-AreSized s h = go s.active_group h.active
    where
      go : (o : Option (List ℕ)) → length (active_ops o) ≤ bound → AreSized (commit_group o s)
      go none l = h
      go (some []) l = record { committed = h.committed; active = l }
      go (some (op ∷ ops)) l = record {
        committed =
            All-append IsSized s.committed_groups ((op ∷ ops) ∷ []) h.committed
              ((omega arith, l), tt);
        active = omega arith;
      }

  start-AreSized :
      (name ops : List ℕ) (s : Grouper)
      → length ops ≤ bound
      → AreSized s
      → AreSized (start_group name ops s)
  unfolding start_group
  start-AreSized name ops s l h = record { committed = (commit-AreSized s h).committed; active = l }

  push-AreSized :
      (op : ℕ) (s : Grouper) → suc (group_size s) ≤ bound → AreSized s → AreSized (push_back op s)
  unfolding push_back
  push-AreSized op s l h = go s.active_group l
    where
      go :
          (o : Option (List ℕ))
          → suc (elim o as (λ _. ℕ) [ none ↦ 0 | some ops ↦ length ops ]) ≤ bound
          → AreSized (push_onto op o s)
      go none l = h
      go (some ops) l = record {
        committed = h.committed;
        active = omega (arith, length-append ops (op ∷ []));
      }

  module _ (two : 2 ≤ bound) where
    definition-AreSized :
        (op q : ℕ) (s s' : Grouper)
        → group_definition_with_qalloc op q s ≡ some s'
        → AreSized s
        → AreSized s'
    unfolding push_back start_group
    definition-AreSized op q s s' e h =
        let (a, name, ids, _, r) = group_definition_lem op q s s' e in
        let c =
          commit-AreSized (record s { qubit_ids = ids })
            (record { committed = h.committed; active = h.active }) in
        rw (sym r) (record { committed = c.committed; active = two })

    module _ (max_ops : ℕ) (positive : 0 < max_ops) (most : max_ops ≤ bound) where
      get_group-AreSized :
          (involved : List ℕ) (s s' : Grouper)
          → get_group_for_qubits involved s ≡ some s'
          → AreSized s
          → AreSized s'
      get_group-AreSized involved s s' e h = elim (get_group_lem involved s s' e) [
        | inl (r, _, _) ↦ subst AreSized r h
        | inr (name, r) ↦ subst AreSized r (start-AreSized name [] s (omega arith) h)
      ]

      -- Behind a commit the group for the qubits is a new one.
      fresh_group :
          (involved : List ℕ) (s s' : Grouper)
          → get_group_for_qubits involved (commit_current_group s) ≡ some s'
          → group_size s' ≡ 0
      unfolding start_group
      fresh_group involved s s' e = elim (get_group_lem involved (commit_current_group s) s' e) [
        | inl (r, ops, h) ↦ let n = commit-none s in let c = sym n ∙ h in absurd cc
        | inr (name, r) ↦ rw (sym r) refl
      ]

      add_operation-AreSized :
          (op : ℕ) (involved : List ℕ) (s s' : Grouper)
          → add_operation_to_group max_ops op involved s ≡ some s'
          → AreSized s
          → AreSized s'
      add_operation-AreSized op involved s s' e h =
          let (current, next, f, g, r) = add_operation_lem max_ops op involved s s' e in
          let c = get_group-AreSized involved s current f h in
          elim g [
            | inl (t, m) ↦
                let n =
                  get_group-AreSized involved (commit_current_group current) next m
                    (commit-AreSized current c) in
                let z = fresh_group involved current next m in
                subst AreSized r (push-AreSized op next (omega arith) n)
            | inr (t, m) ↦
                let room : group_size current < max_ops = ground arith in
                subst AreSized r (
                  subst (λ x. AreSized (push_back op x)) m
                    (push-AreSized op current (omega arith) c))
          ]

      classify-AreSized :
          (op : ℕ) (k : Kind) (s s' : Grouper)
          → classify max_ops op k s ≡ some s'
          → AreSized s
          → AreSized s'
      unfolding classify
      classify-AreSized op stays s s' e h = subst AreSized (some-inj s s' e) h
      classify-AreSized op (qalloc q) s s' e h = subst AreSized (some-inj s s' e) h
      classify-AreSized op breaking s s' e h =
          subst AreSized (some-inj (commit_current_group s) s' e) (commit-AreSized s h)
      classify-AreSized op (define q) s s' e h = definition-AreSized op q s s' e h
      classify-AreSized op (entangle q) s s' e h =
          let (t, f, g) = bind-some (group_definition_with_qalloc op q s) _ s' e in
          subst AreSized (some-inj (commit_current_group t) s' g)
            (commit-AreSized t (definition-AreSized op q s t f h))
      classify-AreSized op (uses []) s s' e h = absurd cc
      classify-AreSized op (uses (a ∷ involved)) s s' e h =
          add_operation-AreSized op (a ∷ involved) s s' e h

      cross_block-AreSized :
          (current : Option ℕ) (block : ℕ) (s : Grouper)
          → AreSized s
          → AreSized (cross_block current block s)
      unfolding cross_block
      cross_block-AreSized none block s h = h
      cross_block-AreSized (some current) block s h = elim (Bool-cases (current == block)) [
        | inl e ↦ rw e h
        | inr e ↦ rw e (commit-AreSized s h)
      ]

      pub classify_all-AreSized :
          (current : Option ℕ) (ops : List Operation) (s s' : Grouper)
          → classify_all max_ops current ops s ≡ some s'
          → AreSized s
          → AreSized s'
      unfolding classify_all
      classify_all-AreSized current [] s s' e h = subst AreSized (some-inj s s' e) h
      classify_all-AreSized current (op ∷ ops) s s' e h =
          let crossed = cross_block current op.block s in
          let (t, f, g) = bind-some (classify max_ops op.id op.kind crossed) _ s' e in
          classify_all-AreSized (some op.block) ops t s' g (
            classify-AreSized op.id op.kind crossed t f (cross_block-AreSized current op.block s h))

-- With a threshold that is not 0, if no assertion fails, no group is empty, and none has more operations
-- than the threshold, or than two where the threshold is 1.
pub functionize_op_classifier-sizes :
    (max_ops : ℕ) (ops : List Operation) (groups : List (List ℕ))
    → 0 < max_ops
    → functionize_op_classifier max_ops ops ≡ some groups
    → All (IsSized (max 2 max_ops)) groups
unfolding functionize_op_classifier get_all_final_groups
functionize_op_classifier-sizes max_ops ops groups positive e =
    let bound = max 2 max_ops in
    let (registered, f, g) = bind-some (register_all ops empty_grouper) _ groups e in
    let (s, h, k) = bind-some (classify_all max_ops none ops registered) _ groups g in
    let start =
      subst (AreSized bound) (register_all_lem ops empty_grouper registered f)
        (record { committed = tt; active = omega arith }) in
    let c =
      classify_all-AreSized bound (omega arith) max_ops positive (omega arith) none ops registered s
        h start in
    subst (All (IsSized bound)) (some-inj (commit_current_group s).committed_groups groups k)
      (commit-AreSized bound s c).committed
