-- ===== src/IQoala/Host/References.antt =====
-- Block::removeAllBlockReferences.
use qoala_mlir.Common.{
  ℕ, false, List, [], ◌∷◌, ◌≡◌, refl, sym, ap, subst, ◌∙◌, Option, none, some, ◌==◌, if◌then◌else◌,
  not, ◌&&◌, elem, keep, arith, inl, inr, Bool-cases, IsNodup, IsNodup-keep, keep-keep, keep-cong,
}
use qoala_mlir.IQoala.Program.{Block}
use qoala_mlir.IQoala.Host.{
  erase_first, clear_if_same, remove_predecessor_if_exists, remove_dependency_if_exists,
  remove_prev_comm_if_exists, remove_prev_ent_if_exists, remove_all_block_references,
}

-- The blocks that are not removed.
abbrev pub without : List ℕ → List ℕ → List ℕ
without removed l = keep (λ x. not (elem x removed)) l

abbrev pub cleared : List ℕ → Option ℕ → Option ℕ
cleared removed none = none
cleared removed (some x) = if elem x removed then none else some x

keep_all : (x : ℕ) (l : List ℕ) → elem x l ≡ false → keep (λ y. not (y == x)) l ≡ l
keep_all x [] h = refl
keep_all x (y ∷ l) h = ground (arith, keep_all x l)

erase_first-keep : (x : ℕ) (l : List ℕ) → IsNodup l → erase_first x l ≡ keep (λ y. not (y == x)) l
unfolding erase_first
erase_first-keep x [] h = refl
erase_first-keep x (y ∷ l) (n, h) = elim (Bool-cases (y == x)) [
  | inl e ↦ let q : y ≡ x = ground arith in rw e (sym (keep_all x l (rw q at n)))
  | inr e ↦ rw e (ap (λ t. y ∷ t) (erase_first-keep x l h))
]

without-cons :
    (x : ℕ) (xs l : List ℕ) → without xs (keep (λ y. not (y == x)) l) ≡ without (x ∷ xs) l
without-cons x xs l =
    keep-keep (λ y. not (elem y xs)) (λ y. not (y == x)) l
    ∙ keep-cong (λ y. not (y == x) && not (elem y xs)) (λ y. not (elem y (x ∷ xs))) l
        (λ y. ground arith)

cleared-cons :
    (x : ℕ) (xs : List ℕ) (o : Option ℕ) → cleared xs (clear_if_same x o) ≡ cleared (x ∷ xs) o
unfolding clear_if_same
cleared-cons x xs none = refl
cleared-cons x xs (some y) = ground arith

without_nil : (l : List ℕ) → without [] l ≡ l
without_nil [] = refl
without_nil (x ∷ l) = ap (λ t. x ∷ t) (without_nil l)

cleared_nil : (o : Option ℕ) → cleared [] o ≡ o
cleared_nil none = refl
cleared_nil (some x) = refl

-- A block with its references replaced.
abbrev referring : Block → List ℕ → List ℕ → Option ℕ → Option ℕ → Block
referring b ds ps comm ent = record b {
  dependencies = ds;
  predecessors = ps;
  prev_comm = comm;
  prev_ent = ent;
}

-- For a block without repeated predecessors or dependencies removeAllBlockReferences leaves exactly the
-- references to blocks that are not removed, in their order; the deadlines, which refer to blocks too,
-- stay as they are.
pub remove_all_block_references_lem :
    (removed : List ℕ) (b : Block)
    → IsNodup b.dependencies
    → IsNodup b.predecessors
    → remove_all_block_references removed b ≡ record b {
      dependencies = without removed b.dependencies;
      predecessors = without removed b.predecessors;
      prev_comm = cleared removed b.prev_comm;
      prev_ent = cleared removed b.prev_ent;
    }
unfolding remove_all_block_references remove_predecessor_if_exists remove_dependency_if_exists
    remove_prev_comm_if_exists remove_prev_ent_if_exists
remove_all_block_references_lem [] b d p =
    rw
      (
        without_nil b.dependencies,
        without_nil b.predecessors,
        cleared_nil b.prev_comm,
        cleared_nil b.prev_ent,
      )
      refl
remove_all_block_references_lem (x ∷ xs) b d p =
    let ed = erase_first-keep x b.dependencies d in
    let ep = erase_first-keep x b.predecessors p in
    let nd = subst IsNodup (sym ed) (IsNodup-keep (λ y. not (y == x)) b.dependencies d) in
    let np = subst IsNodup (sym ep) (IsNodup-keep (λ y. not (y == x)) b.predecessors p) in
    let once =
      referring b (erase_first x b.dependencies) (erase_first x b.predecessors)
        (clear_if_same x b.prev_comm) (clear_if_same x b.prev_ent) in
    remove_all_block_references_lem xs once nd np
    ∙ ap
        (λ t.
          referring b t (without xs (erase_first x b.predecessors))
            (cleared xs (clear_if_same x b.prev_comm)) (cleared xs (clear_if_same x b.prev_ent)))
        (ap (without xs) ed ∙ without-cons x xs b.dependencies)
    ∙ ap
        (λ t.
          referring b (without (x ∷ xs) b.dependencies) t (cleared xs (clear_if_same x b.prev_comm))
            (cleared xs (clear_if_same x b.prev_ent)))
        (ap (without xs) ep ∙ without-cons x xs b.predecessors)
    ∙ ap
        (λ t.
          referring b (without (x ∷ xs) b.dependencies) (without (x ∷ xs) b.predecessors) t
            (cleared xs (clear_if_same x b.prev_ent)))
        (cleared-cons x xs b.prev_comm)
    ∙ ap
        (referring b (without (x ∷ xs) b.dependencies) (without (x ∷ xs) b.predecessors)
          (cleared (x ∷ xs) b.prev_comm))
        (cleared-cons x xs b.prev_ent)
