-- ===== src/QoalaHost/GateCount/Balance.antt =====
-- What the counters say after the gates of a callee.
use qoala_mlir.Common.{
  ℕ, suc, ◌≡◌, refl, sym, inl, inr, List, [], ◌∷◌, Option, none, some, ◌==◌, if◌then◌else◌, In,
  arith, Bool-cases, Option-cases, bind-some, some-inj,
}
use qoala_mlir.QoalaHost.GateCount.{
  GateOp, measure, init, one_qubit, two_qubit, other, Call, Map, lookup, count_of, put, plus, add,
  GateCountState, flush_temp_one_qubit_count, get_call_val_from_callee, get_qubit_id, reset_counts,
  count_two_qubit, count_operands, process_op, process_ops, process_callee_gates,
  get_routine_arg_values, map_return_val_to_caller,
}

-- The gates are the one-qubit and the two-qubit gates, in all and of each qubit.
pub record IsBalanced (s : GateCountState) : Type 0 where
  pub total : s.gate_count ≡ plus s.one_qubit_gate_count s.two_qubit_gate_count
  pub detailed :
      (q : ℕ)
      → count_of s.detailed_gate_count q
        ≡ plus
            (count_of s.detailed_one_qubit_gate_count q)
            (count_of s.detailed_two_qubit_gate_count q)

plus-left : (g o t n : ℕ) → g ≡ plus o t → plus g n ≡ plus (plus o n) t
plus-left g o t n h = omega arith

plus-right : (g o t n : ℕ) → g ≡ plus o t → plus g n ≡ plus o (plus t n)
plus-right g o t n h = omega arith

count_of-add :
    (m : Map) (q n k : ℕ)
    → count_of (add m q n) k ≡ (if q == k then plus (count_of m k) n else count_of m k)
unfolding add count_of
count_of-add m q n k = elim (Bool-cases (q == k)) [
  | inl e ↦ let f : q ≡ k = ground arith in rw (e, f) refl
  | inr e ↦ rw e refl
]

flush-IsBalanced :
    (q : ℕ) (s : GateCountState) → IsBalanced s → IsBalanced (flush_temp_one_qubit_count q s)
unfolding flush_temp_one_qubit_count
flush-IsBalanced q s h = elim (Option-cases (lookup s.temp_one_qubit_gate_count q)) [
  | inl e ↦ rw (e, flush_temp_one_qubit_count) h
  | inr (n, e) ↦ elim (Bool-cases (n == 0)) [
    | inl z ↦ rw (e, flush_temp_one_qubit_count, z) h
    | inr z ↦
        rw (e, flush_temp_one_qubit_count, z)
          (record {
            total = plus-left s.gate_count s.one_qubit_gate_count s.two_qubit_gate_count n h.total;
            detailed = λ k.
                rw
                  (
                    count_of-add s.detailed_gate_count q n k,
                    count_of-add s.detailed_one_qubit_gate_count q n k,
                  )
                  (elim (Bool-cases (q == k)) [
                    | inl f ↦ rw f (
                        plus-left (count_of s.detailed_gate_count k)
                          (count_of s.detailed_one_qubit_gate_count k)
                          (count_of s.detailed_two_qubit_gate_count k) n (h.detailed k))
                    | inr f ↦ rw f (h.detailed k)
                  ]);
          })
  ]
]

reset-IsBalanced : (q : ℕ) (s : GateCountState) → IsBalanced s → IsBalanced (reset_counts q s)
unfolding reset_counts count_of
reset-IsBalanced q s h = record {
  total = h.total;
  detailed = λ k. elim (Bool-cases (q == k)) [ inl e ↦ rw e refl | inr e ↦ rw e (h.detailed k) ];
}

two_qubit-IsBalanced :
    (q : ℕ) (s : GateCountState) → IsBalanced s → IsBalanced (count_two_qubit q s)
unfolding count_two_qubit
two_qubit-IsBalanced q s h = record {
  total = h.total;
  detailed = λ k.
      rw
        (
          count_of-add s.detailed_gate_count q 1 k,
          count_of-add s.detailed_two_qubit_gate_count q 1 k,
        )
        (elim (Bool-cases (q == k)) [
          | inl f ↦ rw f (
              plus-right (count_of s.detailed_gate_count k)
                (count_of s.detailed_one_qubit_gate_count k)
                (count_of s.detailed_two_qubit_gate_count k) 1 (h.detailed k))
          | inr f ↦ rw f (h.detailed k)
        ]);
}

qubit_ids-flush :
    (q : ℕ) (s : GateCountState) → (flush_temp_one_qubit_count q s).qubit_ids ≡ s.qubit_ids
unfolding flush_temp_one_qubit_count
qubit_ids-flush q s = elim (Option-cases (lookup s.temp_one_qubit_gate_count q)) [
  | inl e ↦ rw (e, flush_temp_one_qubit_count) refl
  | inr (n, e) ↦ elim (Bool-cases (n == 0)) [
    | inl z ↦ rw (e, flush_temp_one_qubit_count, z) refl
    | inr z ↦ rw (e, flush_temp_one_qubit_count, z) refl
  ]
]

qubit_ids-counted :
    (q : ℕ) (s : GateCountState)
    → (flush_temp_one_qubit_count q (count_two_qubit q s)).qubit_ids ≡ s.qubit_ids
unfolding count_two_qubit
qubit_ids-counted q s = qubit_ids-flush q (count_two_qubit q s)

module _ (args : List ℕ) (values : Map) where
  count_operands-IsBalanced :
      (operands : List ℕ) (returned : Map) (s s' : GateCountState)
      → count_operands args values operands returned s ≡ some s'
      → IsBalanced s
      → IsBalanced s'
  unfolding count_operands
  count_operands-IsBalanced [] returned s s' e h = let f = some-inj s s' e in rw (sym f) h
  count_operands-IsBalanced (operand ∷ operands) returned s s' e h =
      let (q, _, f) = bind-some (get_qubit_id operand s.qubit_ids args values returned) _ s' e in
      count_operands-IsBalanced operands returned
        (flush_temp_one_qubit_count q (count_two_qubit q s)) s' f
        (flush-IsBalanced q (count_two_qubit q s) (two_qubit-IsBalanced q s h))

  -- An operand that names no tracked qubit, such as an angle of a crot_x, fails.
  pub count_operands-untracked :
      (operand : ℕ) (operands : List ℕ) (returned : Map) (s : GateCountState)
      → In operand operands
      → get_qubit_id operand s.qubit_ids args values returned ≡ none
      → count_operands args values operands returned s ≡ none
  unfolding count_operands
  count_operands-untracked operand [] returned s m h = absurd m
  count_operands-untracked operand (o ∷ operands) returned s (inl e) h = rw (sym e, h) refl
  count_operands-untracked operand (o ∷ operands) returned s (inr m) h =
      elim (Option-cases (get_qubit_id o s.qubit_ids args values returned)) [
        | inl e ↦ rw e refl
        | inr (q, e) ↦ rw e (
            count_operands-untracked operand operands returned
              (flush_temp_one_qubit_count q (count_two_qubit q s)) m (rw (qubit_ids-counted q s) h))
      ]

  process_op-IsBalanced :
      (q_id : ℕ) (op : GateOp) (returned : Map) (s : GateCountState) (next : Map × GateCountState)
      → process_op args values q_id op returned s ≡ some next
      → IsBalanced s
      → IsBalanced next.1
  unfolding process_op
  process_op-IsBalanced q_id (measure operand) returned s next e h =
      let (q, _, f) = bind-some (get_qubit_id operand s.qubit_ids args values returned) _ next e in
      let g = some-inj _ next f in rw (sym g) (flush-IsBalanced q s h)
  process_op-IsBalanced q_id (init operand) returned s next e h =
      let (call_val, _, f) =
        bind-some (get_call_val_from_callee operand args values returned) _ next e in
      initialised call_val f
    where
      initialised :
          (call_val : Option ℕ)
          → elim call_val as (λ _. Option (Map × GateCountState)) [
            | some new_qubit ↦ some (
              returned,
              reset_counts q_id (record s { qubit_ids = put s.qubit_ids new_qubit q_id }),
            )
            | none ↦ some (
              put returned operand operand,
              reset_counts q_id (record s { qubit_ids = put s.qubit_ids operand q_id }),
            )
          ]
            ≡ some next
          → IsBalanced next.1
      initialised none f =
          let g = some-inj _ next f in
          rw (sym g) (reset-IsBalanced q_id _ (record { total = h.total; detailed = h.detailed }))
      initialised (some v) f =
          let g = some-inj _ next f in
          rw (sym g) (reset-IsBalanced q_id _ (record { total = h.total; detailed = h.detailed }))
  process_op-IsBalanced q_id (one_qubit operand) returned s next e h =
      let (q, _, f) = bind-some (get_qubit_id operand s.qubit_ids args values returned) _ next e in
      let g = some-inj _ next f in rw (sym g) (record { total = h.total; detailed = h.detailed })
  process_op-IsBalanced q_id (two_qubit operands) returned s next e h =
      let (s', f, g) = bind-some (count_operands args values operands returned _) _ next e in
      let k = some-inj (returned, s') next g in
      rw (sym k) (
        count_operands-IsBalanced operands returned _ s' f (record {
          total = plus-right s.gate_count s.one_qubit_gate_count s.two_qubit_gate_count 1 h.total;
          detailed = h.detailed;
        }))
  process_op-IsBalanced q_id other returned s next e h =
      let g = some-inj (returned, s) next e in rw (sym g) h

  process_ops-IsBalanced :
      (qubit_id : ℕ → ℕ) (op_idx : ℕ) (ops : List GateOp) (returned : Map) (s s' : GateCountState)
      → process_ops args values qubit_id op_idx ops returned s ≡ some s'
      → IsBalanced s
      → IsBalanced s'
  unfolding process_ops
  process_ops-IsBalanced qubit_id op_idx [] returned s s' e h =
      let f = some-inj s s' e in rw (sym f) h
  process_ops-IsBalanced qubit_id op_idx (op ∷ ops) returned s s' e h =
      let (next, f, g) =
        bind-some (process_op args values (qubit_id op_idx) op returned s) _ s' e in
      process_ops-IsBalanced qubit_id (suc op_idx) ops next.0 next.1 s' g
        (process_op-IsBalanced (qubit_id op_idx) op returned s next f h)

pub process_callee_gates-IsBalanced :
    (qubit_id : ℕ → ℕ) (c : Call) (s s' : GateCountState)
    → process_callee_gates qubit_id c s ≡ some s'
    → IsBalanced s
    → IsBalanced s'
unfolding process_callee_gates
process_callee_gates-IsBalanced qubit_id c s s' e h =
    let (values, _, f) = bind-some (get_routine_arg_values c.callee.args c.operands) _ s' e in
    let (return_values, _, g) = bind-some c.callee.returned _ s' f in
    let (returned, _, k) = bind-some (map_return_val_to_caller [] return_values c.results) _ s' g in
    process_ops-IsBalanced c.callee.args values qubit_id 1 c.callee.ops returned s s' k h
