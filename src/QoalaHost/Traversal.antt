-- ===== src/QoalaHost/Traversal.antt =====
-- lib/Analysis/QoalaHost/AnalysisTraversal.cpp: the prerequisites that blk_meta attributes state, and the
-- search for a block that is ready. A block is a number, `nullptr` is `none`, StringMap and DenseMap are
-- association lists.
pub mod Ready
use Prim.Native.String.{String}
use text.Mathlib.Text.{◌==◌ as str_eq}
use qoala_mlir.Common.{
  ℕ, Bool, true, false, List, [], ◌∷◌, ◌++◌, Option, none, some, ◌==◌, if◌then◌else◌, elem, not,
  ◌&&◌, ◌||◌, any, all,
}
use qoala_mlir.QoalaHost.Graph.{Deps, deps_of, contains_key}

-- An array attribute that is absent is an empty list.
pub record BlkMeta : Type 0 where
  pub block_id : String
  pub predecessors : List String
  pub dependencies : List String
  pub prev_ent : Option String
  pub prev_comm : Option String

pub record Block : Type 0 where
  pub ptr : ℕ
  pub blk_meta : Option BlkMeta

pub record BlockPrerequisites : Type 0 where
  pub predecessors : Deps
  pub dependencies : Deps

-- The checks of one round of the loop, in their order; `continue` is false.
unfoldable pub is_ready : List ℕ → BlockPrerequisites → List ℕ → ℕ → Bool
is_ready visited prereqs cond_br_targets b =
    if elem b visited || elem b cond_br_targets
    then false
    else if contains_key prereqs.dependencies b
        && not (all (λ dep. elem dep visited) (deps_of prereqs.dependencies b))
    then false
    else elim (deps_of prereqs.predecessors b) [
      | [] ↦ true
      | p ∷ ps ↦ any (λ pred. elem pred visited) (p ∷ ps)
    ]

unfoldable pub scan_for_ready_block : List ℕ → List ℕ → BlockPrerequisites → List ℕ → Option ℕ
unfolding is_ready
scan_for_ready_block [] visited prereqs cond_br_targets = none
scan_for_ready_block (b ∷ region) visited prereqs cond_br_targets =
    let rest = scan_for_ready_block region visited prereqs cond_br_targets in
    if is_ready visited prereqs cond_br_targets b then some b else rest

-- idToBlock: a later block with the same id replaces an earlier one.
unfoldable pub id_to_block : List (String × ℕ) → List Block → List (String × ℕ)
id_to_block m [] = m
id_to_block m (b ∷ bs) = elim b.blk_meta [
  | none ↦ id_to_block m bs
  | some blk_meta ↦ id_to_block ((blk_meta.block_id, b.ptr) ∷ m) bs
]

unfoldable pub lookup_id : List (String × ℕ) → String → Option ℕ
lookup_id [] s = none
lookup_id ((k, b) ∷ m) s = if str_eq k s then some b else lookup_id m s

-- prereqs[b].push_back(d)
unfoldable pub push_back : Deps → ℕ → ℕ → Deps
push_back [] b d = (b, d ∷ []) ∷ []
push_back ((k, ds) ∷ g) b d = if k == b then (k, ds ++ d ∷ []) ∷ g else (k, ds) ∷ push_back g b d

unfoldable pub push_id : List (String × ℕ) → ℕ → Deps → String → Deps
unfolding lookup_id push_back
push_id m b g s = elim (lookup_id m s) [ none ↦ g | some d ↦ push_back g b d ]

unfoldable pub push_ids : List (String × ℕ) → ℕ → Deps → List String → Deps
unfolding push_id
push_ids m b g [] = g
push_ids m b g (s ∷ ss) = push_ids m b (push_id m b g s) ss

-- prev_ent and prev_comm, where the attribute is there and is not empty.
unfoldable pub push_previous : List (String × ℕ) → ℕ → Deps → Option String → Deps
unfolding push_id
push_previous m b g none = g
push_previous m b g (some s) = if str_eq s "" then g else push_id m b g s

unfoldable pub add_prerequisites :
    List (String × ℕ) → BlockPrerequisites → List Block → BlockPrerequisites
unfolding push_ids push_previous
add_prerequisites m prereqs [] = prereqs
add_prerequisites m prereqs (b ∷ bs) = elim b.blk_meta [
  | none ↦ add_prerequisites m prereqs bs
  | some blk_meta ↦
      add_prerequisites m
        (record {
          predecessors = push_ids m b.ptr prereqs.predecessors blk_meta.predecessors;
          dependencies =
              push_previous m b.ptr
                (push_previous m b.ptr (push_ids m b.ptr prereqs.dependencies blk_meta.dependencies)
                  blk_meta.prev_ent)
                blk_meta.prev_comm;
        })
        bs
]

unfoldable pub build_block_prerequisites : List Block → BlockPrerequisites
unfolding id_to_block add_prerequisites
build_block_prerequisites blocks =
    add_prerequisites (id_to_block [] blocks) (record { predecessors = []; dependencies = [] })
      blocks
