-- ===== src/IQoala/Routine/Branches.antt =====
-- resolveInternalInstrRefs: the displacements of branches within a routine.
use qoala_mlir.Common.{
  ℕ, suc, ◌+◌, ◌-◌, leb, ◌≡◌, refl, sym, ap, ◌∙◌, Bool, true, false, List, [], ◌∷◌, map, none, some,
  ◌==◌, if◌then◌else◌, elem, all, IsNodup, arith, inl, inr, Bool-cases, ==_refl,
}
use qoala_mlir.Common.Int.{ℤ, pos, negsuc, ◌-ℤ◌}
use qoala_mlir.IQoala.Program.{
  Instruction, Expr, symbol_ref, instruction_ref, Operand, placeholder, immediate_i32,
  immediate_f32, register, local_register, expression,
}
use qoala_mlir.IQoala.Routine.{
  lookup_value, instruction_key, emplace_index, index_operations, displacement, resolve_operand,
  resolve_operands, resolve_instructions, resolve_internal_instr_refs,
}

abbrev pub operations : List Instruction → List ℕ
operations [] = []
operations (i ∷ is) = i.original_op ∷ operations is

-- The place of an operation that is there.
abbrev pub index_of : ℕ → List ℕ → ℕ
index_of t [] = 0
index_of t (x ∷ xs) = if x == t then 0 else suc (index_of t xs)

-- How many instructions further on `to` stands, negative where it stands before `from`.
abbrev pub distance : ℕ → ℕ → ℤ
distance from to = if leb from to then pos (to - from) else negsuc (from - to - 1)

displacement-distance : (to from : ℕ) → displacement to from ≡ distance from to
unfolding ◌-ℤ◌
displacement-distance to from = ground arith

-- A reference whose displacement is the distance from its instruction to its target.
abbrev pub aim : List ℕ → ℕ → Operand → Operand
aim ops i (expression (instruction_ref target d resolved)) =
    expression (instruction_ref target (distance i (index_of target ops)) true)
aim ops i o = o

abbrev pub aim_all : List ℕ → ℕ → List Instruction → List Instruction
aim_all ops i [] = []
aim_all ops i (instruction ∷ rest) =
    record instruction { operands = map (aim ops i) instruction.operands }
    ∷ aim_all ops (suc i) rest

abbrev pub target_is_there : List ℕ → Operand → Bool
target_is_there ops (expression (instruction_ref target d resolved)) = elem target ops
target_is_there ops o = true

abbrev pub targets_are_there : List ℕ → List Instruction → Bool
targets_are_there ops is = all (λ i. all (target_is_there ops) i.operands) is

distinct-head : (x t : ℕ) (xs : List ℕ) → elem x xs ≡ false → elem t xs ≡ true → (x == t) ≡ false
distinct-head x t xs n m = elim (Bool-cases (x == t)) [
  | inl e ↦ let p : x ≡ t = ground arith in absurd (let c : true ≡ false = sym (rw p m) ∙ n in cc)
  | inr e ↦ e
]

index_step :
    (x : Instruction) (is : List Instruction) (i : ℕ) (m m' : List (ℕ × ℕ)) (keys : List ℕ)
    → lookup_value x.original_op m ≡ none
    → index_operations (suc i) ((x.original_op, i) ∷ m) is ≡ some (m', keys)
    → index_operations i m (x ∷ is) ≡ some (m', x.original_op ∷ keys)
unfolding index_operations instruction_key emplace_index
index_step x is i m m' keys free p =
    let op = x.original_op in
    ap
      (λ o.
        emplace_index (lookup_value (instruction_key o op i) m)
          (index_operations (suc i) ((instruction_key o op i, i) ∷ m) is) (instruction_key o op i))
      free
    ∙ ap (λ o. emplace_index o (index_operations (suc i) ((op, i) ∷ m) is) op) free
    ∙ ap (λ t. emplace_index none t op) p

-- The map that the first loop builds: every operation at its place.
index_operations_lem :
    (is : List Instruction) (i : ℕ) (m : List (ℕ × ℕ))
    → IsNodup (operations is)
    → ((t : ℕ) → elem t (operations is) ≡ true → lookup_value t m ≡ none)
    → (m' : List (ℕ × ℕ)) × (index_operations i m is ≡ some (m', operations is))
      × ((t : ℕ)
          → elem t (operations is) ≡ true
          → lookup_value t m' ≡ some (i + index_of t (operations is)))
      × ((t : ℕ) → elem t (operations is) ≡ false → lookup_value t m' ≡ lookup_value t m)
unfolding index_operations lookup_value
index_operations_lem [] i m n h = (m, refl, λ t e. absurd cc, λ t e. refl)
index_operations_lem (x ∷ is) i m (n, ns) h =
    let op = x.original_op in
    let free : lookup_value op m ≡ none = h op (ground (arith, ==_refl op)) in
    let (m', p, q, r) =
      index_operations_lem is (suc i) ((op, i) ∷ m) ns (λ t e.
        let d = distinct-head op t (operations is) n e in rw d (h t (rw e (ground arith)))) in
    (
      m',
      index_step x is i m m' (operations is) free p,
      (λ t e. elim (Bool-cases (op == t)) [
        | inl d ↦
            let c : op ≡ t = ground arith in
            let out : elem t (operations is) ≡ false = rw c at n in
            rw d (r t out ∙ rw d (ap some (omega arith)))
        | inr d ↦
            let there : elem t (operations is) ≡ true = ground arith in
            rw d (q t there ∙ ap some (omega arith))
      ]),
      λ t e.
          let d : (op == t) ≡ false = ground arith in
          let out : elem t (operations is) ≡ false = ground arith in r t out ∙ rw d refl,
    )

resolve_operand_lem :
    (m : List (ℕ × ℕ)) (ops : List ℕ) (key i : ℕ) (o : Operand)
    → lookup_value key m ≡ some i
    → ((t : ℕ) → elem t ops ≡ true → lookup_value t m ≡ some (index_of t ops))
    → target_is_there ops o ≡ true
    → resolve_operand m key o ≡ some (aim ops i o)
unfolding resolve_operand
resolve_operand_lem m ops key i (expression (instruction_ref target d resolved)) k h e =
    let p = h target e in
    rw (k, p)
      (ap (λ t. some (expression (instruction_ref target t true)))
        (displacement-distance (index_of target ops) i))
resolve_operand_lem m ops key i (expression (symbol_ref s)) k h e = refl
resolve_operand_lem m ops key i (expression Expr.invalid) k h e = refl
resolve_operand_lem m ops key i (register ref) k h e = refl
resolve_operand_lem m ops key i (local_register ref) k h e = refl
resolve_operand_lem m ops key i (immediate_i32 n) k h e = refl
resolve_operand_lem m ops key i (immediate_f32 n) k h e = refl
resolve_operand_lem m ops key i placeholder k h e = refl
resolve_operand_lem m ops key i Operand.invalid k h e = refl

resolve_operands_lem :
    (m : List (ℕ × ℕ)) (ops : List ℕ) (key i : ℕ) (os : List Operand)
    → lookup_value key m ≡ some i
    → ((t : ℕ) → elem t ops ≡ true → lookup_value t m ≡ some (index_of t ops))
    → all (target_is_there ops) os ≡ true
    → resolve_operands m key os ≡ some (map (aim ops i) os)
unfolding resolve_operands
resolve_operands_lem m ops key i [] k h e = refl
resolve_operands_lem m ops key i (o ∷ os) k h e =
    let p = resolve_operand_lem m ops key i o k h (ground arith) in
    let q = resolve_operands_lem m ops key i os k h (ground arith) in rw (p, q) refl

-- The second loop, from the place i on.
resolve_instructions_lem :
    (m : List (ℕ × ℕ)) (ops : List ℕ) (i : ℕ) (is : List Instruction)
    → IsNodup (operations is)
    → ((t : ℕ)
        → elem t (operations is) ≡ true
        → lookup_value t m ≡ some (i + index_of t (operations is)))
    → ((t : ℕ) → elem t ops ≡ true → lookup_value t m ≡ some (index_of t ops))
    → targets_are_there ops is ≡ true
    → resolve_instructions m (operations is) is ≡ some (aim_all ops i is)
unfolding resolve_instructions
resolve_instructions_lem m ops i [] n l h e = refl
resolve_instructions_lem m ops i (x ∷ is) (n, ns) l h e =
    let op = x.original_op in
    let here : lookup_value op m ≡ some i =
      l op (rw ==_refl refl) ∙ rw ==_refl (ap some (omega arith)) in
    let p = resolve_operands_lem m ops op i x.operands here h (ground arith) in
    let later : (t : ℕ)
        → elem t (operations is) ≡ true
        → lookup_value t m ≡ some (suc i + index_of t (operations is)) =
      λ t g.
        let d = distinct-head op t (operations is) n g in
        l t (rw g (ground arith)) ∙ rw d (ap some (omega arith)) in
    let q = resolve_instructions_lem m ops (suc i) is ns later h (ground arith) in rw (p, q) refl

-- In a routine whose instructions come from different operations and whose branches go to operations of the
-- routine, resolveInternalInstrRefs fails no assertion, and every reference gets the distance from its
-- instruction to its target and is marked as resolved; nothing else changes.
pub resolve_internal_instr_refs_lem :
    (is : List Instruction)
    → IsNodup (operations is)
    → targets_are_there (operations is) is ≡ true
    → resolve_internal_instr_refs is ≡ some (aim_all (operations is) 0 is)
unfolding resolve_internal_instr_refs lookup_value
resolve_internal_instr_refs_lem is n e =
    let (m, p, q, r) = index_operations_lem is 0 [] n (λ t g. refl) in
    let q0 : (t : ℕ)
        → elem t (operations is) ≡ true
        → lookup_value t m ≡ some (index_of t (operations is)) =
      λ t g. q t g ∙ ap some (omega arith) in
    let s = resolve_instructions_lem m (operations is) 0 is n q q0 e in rw (p, s) refl
