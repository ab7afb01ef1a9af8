-- ===== src/IQoala/Host/Deletion.antt =====
-- HostSection::deleteEmptyBlocks.
use qoala_mlir.Common.{
  ℕ, Bool, true, false, List, [], ◌∷◌, ◌++◌, map, ◌≡◌, ◌≢◌, refl, sym, ap, ◌∙◌, Option, none, some,
  ◌>>=◌, ◌==◌, if◌then◌else◌, not, ◌||◌, elem, all, arith, inl, inr, Option-cases, ==_refl,
  append_assoc, append_nil, IsNodup, All,
}
use qoala_mlir.IQoala.Program.{Block, is_empty}
use qoala_mlir.IQoala.Host.References.{without, cleared, remove_all_block_references_lem}
use qoala_mlir.IQoala.Host.{
  any?, contains_jump_to, block_is_used_as_jump_destination, sweep_blocks,
  remove_all_block_references, delete_empty_blocks,
}

-- Every block holds an instruction.
abbrev pub all_filled : List Block → Bool
all_filled bs = all (λ b. not (is_empty b)) bs

-- No jump in these blocks has an operand that is not a block's name.
abbrev pub JumpsAreNames : List Block → Type 0
JumpsAreNames bs = (d : Block) → block_is_used_as_jump_destination [] bs d ≢ none

-- Blocks with instructions are kept, while nothing is removed yet.
sweep_blocks-filled :
    (hosts kept front tail : List Block)
    → JumpsAreNames hosts
    → all_filled front ≡ true
    → sweep_blocks hosts kept [] (front ++ tail) ≡ sweep_blocks hosts (kept ++ front) [] tail
unfolding sweep_blocks
sweep_blocks-filled hosts kept [] tail j f =
    ap (λ k. sweep_blocks hosts k [] tail) (sym (append_nil kept))
sweep_blocks-filled hosts kept (b ∷ front) tail j f =
    elim (Option-cases (block_is_used_as_jump_destination [] hosts b)) [
      | inl e ↦ absurd (j b e)
      | inr (u, e) ↦
          let g : is_empty b ≡ false = ground arith in
          let h : (u || true) ≡ true = ground arith in
          rw (e, g, h)
            (sweep_blocks-filled hosts (kept ++ b ∷ []) front tail j (ground arith)
              ∙ ap (λ k. sweep_blocks hosts k [] tail) (append_assoc kept (b ∷ []) front))
    ]

-- A block refers to no predecessor and no dependency twice.
abbrev pub HasNoRepeats : Block → Type 0
HasNoRepeats b = IsNodup b.dependencies × IsNodup b.predecessors

-- A block without its references to one that is deleted; its deadlines stay.
abbrev pub forgetting : ℕ → Block → Block
forgetting gone b = record b {
  dependencies = without (gone ∷ []) b.dependencies;
  predecessors = without (gone ∷ []) b.predecessors;
  prev_comm = cleared (gone ∷ []) b.prev_comm;
  prev_ent = cleared (gone ∷ []) b.prev_ent;
}

remove_references-forgetting :
    (gone : ℕ) (bs : List Block)
    → All HasNoRepeats bs
    → map (remove_all_block_references (gone ∷ [])) bs ≡ map (forgetting gone) bs
remove_references-forgetting gone [] h = refl
remove_references-forgetting gone (b ∷ bs) ((d, p), h) =
    let e = remove_all_block_references_lem (gone ∷ []) b d p in
    ap (λ t. t ∷ map (remove_all_block_references (gone ∷ [])) bs) e
    ∙ ap (λ t. forgetting gone b ∷ t) (remove_references-forgetting gone bs h)

-- If only the last block is empty, no jump goes to it, every operand of a jump is the name of a block, and
-- no other block repeats a predecessor or a dependency, deleteEmptyBlocks removes the last block, and from
-- the others, which stay in their order, every dependency, predecessor, communication and entanglement
-- reference to it; their deadlines stay as they are.
pub delete_empty_blocks-last :
    (front : List Block) (last : Block)
    → all_filled front ≡ true
    → is_empty last ≡ true
    → JumpsAreNames (front ++ last ∷ [])
    → block_is_used_as_jump_destination [] (front ++ last ∷ []) last ≡ some false
    → All HasNoRepeats front
    → delete_empty_blocks (front ++ last ∷ []) ≡ some (map (forgetting last.id) front)
unfolding delete_empty_blocks sweep_blocks
delete_empty_blocks-last front last f e j u h =
    rw (sweep_blocks-filled (front ++ last ∷ []) [] front (last ∷ []) j f, u, e)
      (ap some (remove_references-forgetting last.id front h))

any?-front :
    (p : Block → Option Bool) (front tail : List Block)
    → any? p front ≡ some false
    → any? p (front ++ tail) ≡ any? p tail
any?-front p [] tail h = refl
any?-front p (b ∷ front) tail h = elim (Option-cases (p b)) [
  | inl e ↦ absurd (let c : none ≡ some false = rw e at h in cc)
  | inr (true, e) ↦ absurd (let c : some true ≡ some false = rw e at h in cc)
  | inr (false, e) ↦ rw e (any?-front p front tail (rw e at h))
]

-- Where the freed block is not among them, the others answer as before.
freed-elsewhere :
    (x : ℕ) (front : List Block) (d : Block)
    → elem x (map (λ b. b.id) front) ≡ false
    → block_is_used_as_jump_destination (x ∷ []) front d
      ≡ block_is_used_as_jump_destination [] front d
unfolding block_is_used_as_jump_destination
freed-elsewhere x [] d h = refl
freed-elsewhere x (b ∷ front) d h =
    let p : (b.id == x) ≡ false = ground arith in
    let r = freed-elsewhere x front d (ground arith) in
    rw p (ap (λ t. contains_jump_to b d >>= λ found. if found then some true else t) r)

-- If every block before an empty one holds an instruction and has another identifier, no jump goes to the
-- empty block, it is followed by another block that no block before it jumps to, and every operand of a jump
-- is the name of a block, deleteEmptyBlocks reads the block that it has just deleted.
pub delete_empty_blocks-freed :
    (front : List Block) (empty next : Block) (rest : List Block)
    → all_filled front ≡ true
    → is_empty empty ≡ true
    → JumpsAreNames (front ++ empty ∷ next ∷ rest)
    → block_is_used_as_jump_destination [] (front ++ empty ∷ next ∷ rest) empty ≡ some false
    → elem empty.id (map (λ b. b.id) front) ≡ false
    → block_is_used_as_jump_destination [] front next ≡ some false
    → delete_empty_blocks (front ++ empty ∷ next ∷ rest) ≡ none
unfolding delete_empty_blocks sweep_blocks block_is_used_as_jump_destination
delete_empty_blocks-freed front empty next rest f e j u d n =
    let hosts = front ++ empty ∷ next ∷ rest in
    let gone = empty.id ∷ [] in
    let fault : block_is_used_as_jump_destination gone hosts next ≡ none =
      any?-front (λ b. if elem b.id gone then none else contains_jump_to b next) front
        (empty ∷ next ∷ rest) (freed-elsewhere empty.id front next d ∙ n)
      ∙ rw ==_refl refl in
    rw (sweep_blocks-filled hosts [] front (empty ∷ next ∷ rest) j f, u, e, fault) refl
