-- ===== src/IQoala/Host/Types.antt =====
-- HostSection::setBlockTypes.
use qoala_mlir.Common.{
  Bool, true, false, List, [], ◌∷◌, map, ◌≡◌, refl, ap, ◌==◌, if◌then◌else◌, ◌||◌, any, all, length,
  arith, inl, inr, Bool-cases,
}
use qoala_mlir.IQoala.Program.{Instruction, Block, BlockType, cc as cc_type, ql, qc}
use qoala_mlir.IQoala.Host.{
  block_contains_run_request, block_contains_run_subroutine, block_contains_recv_msg, is_recv_cmsg,
  starts_with_recv, set_block_type, set_block_types,
}

-- A block that runs a routine, sends a request or receives a message holds nothing else.
abbrev pub is_separate : Block → Bool
is_separate b =
    if block_contains_run_request b
      || (block_contains_run_subroutine b || block_contains_recv_msg b)
    then length b.instructions == 1
    else true

-- The type that its instruction gives a block; a block without one of the three keeps its own.
abbrev pub type_of : Block → BlockType
type_of b =
    if block_contains_run_request b
    then qc
    else if block_contains_run_subroutine b
    then ql
    else if block_contains_recv_msg b
    then cc_type
    else b.block_type

abbrev pub typed : Block → Block
typed b = record b { block_type = type_of b }

single_recv :
    (l : List Instruction)
    → (length l == 1) ≡ true
    → any (λ i. is_recv_cmsg i.opcode) l ≡ true
    → starts_with_recv l ≡ true
single_recv [] n h = absurd cc
single_recv (i ∷ []) n h = ground arith
single_recv (i ∷ j ∷ l) n h = ground arith

set_block_type-separate : (b : Block) → is_separate b ≡ true → set_block_type b ≡ (true, typed b)
unfolding set_block_type block_contains_recv_msg
set_block_type-separate b h = elim (Bool-cases (block_contains_run_request b)) [
  | inl e ↦
      let n : (length b.instructions == 1) ≡ true = rw e at h in rw (e, n, set_block_type) refl
  | inr e ↦ elim (Bool-cases (block_contains_run_subroutine b)) [
    | inl f ↦
        let n : (length b.instructions == 1) ≡ true = rw (e, f) at h in
        rw (e, f, n, set_block_type) refl
    | inr f ↦ elim (Bool-cases (block_contains_recv_msg b)) [
      | inl g ↦
          let n : (length b.instructions == 1) ≡ true = rw (e, f, g) at h in
          let r = single_recv b.instructions n g in rw (e, f, g, n, r, set_block_type) refl
      | inr g ↦ rw (e, f, g, set_block_type) refl
    ]
  ]
]

set_block_type-mixed : (b : Block) → is_separate b ≡ false → set_block_type b ≡ (false, b)
unfolding set_block_type
set_block_type-mixed b h = elim (Bool-cases (block_contains_run_request b)) [
  | inl e ↦
      let n : (length b.instructions == 1) ≡ false = rw e at h in rw (e, n, set_block_type) refl
  | inr e ↦ elim (Bool-cases (block_contains_run_subroutine b)) [
    | inl f ↦
        let n : (length b.instructions == 1) ≡ false = rw (e, f) at h in
        rw (e, f, n, set_block_type) refl
    | inr f ↦ elim (Bool-cases (block_contains_recv_msg b)) [
      | inl g ↦
          let n : (length b.instructions == 1) ≡ false = rw (e, f, g) at h in
          rw (e, f, g, n, set_block_type) refl
      | inr g ↦ absurd (let n : true ≡ false = rw (e, f, g) at h in cc)
    ]
  ]
]

-- setBlockTypes succeeds exactly when every block with a run_request, a run_subroutine or a recv_cmsg has
-- that one instruction only; then each block has the type of its instruction, and the others keep theirs.
pub set_block_types_lem :
    (bs : List Block)
    → ((set_block_types bs).0 ≡ all is_separate bs)
      × (all is_separate bs ≡ true → (set_block_types bs).1 ≡ map typed bs)
unfolding set_block_types
set_block_types_lem [] = (refl, λ h. refl)
set_block_types_lem (b ∷ bs) =
    let (p, q) = set_block_types_lem bs in
    elim (Bool-cases (is_separate b)) [
      | inl e ↦
          let s = set_block_type-separate b e in rw (s, e) (p, λ h. ap (λ t. typed b ∷ t) (q h))
      | inr e ↦ let s = set_block_type-mixed b e in rw (s, e) (refl, λ h. absurd cc)
    ]
