-- ===== src/QoalaHost/Precedences.antt =====
-- lib/Analysis/QoalaHost/Precedences.cpp: the block-level dependency graph.
pub mod Reduction
use qoala_mlir.Common.{
  ℕ, Bool, true, false, List, [], ◌∷◌, ◌++◌, ◌≡◌, ◌==◌, if◌then◌else◌, elem, keep, not, Option,
  none, some, arith,
}
use qoala_mlir.QoalaHost.Graph.{Deps, deps_of, contains_key, set_deps}

-- `toRemove` for one direct dependency: those of its dependencies that `deps` has too.
shared_deps : List ℕ → List ℕ → List ℕ
shared_deps deps [] = []
shared_deps deps (t ∷ ts) = if elem t deps then t ∷ shared_deps deps ts else shared_deps deps ts

-- The loop over the direct dependencies.
to_remove : Deps → List ℕ → List ℕ → List ℕ
unfolding shared_deps
to_remove g deps [] = []
to_remove g deps (d ∷ ds) =
    if contains_key g d
    then shared_deps deps (deps_of g d) ++ to_remove g deps ds
    else to_remove g deps ds

-- deps.erase(remove), for each block to remove.
erase_all : List ℕ → List ℕ → List ℕ
erase_all removed deps = keep (λ d. not (elem d removed)) deps

reduce_block : Deps → ℕ → Deps
unfolding to_remove erase_all
reduce_block g b = let deps = deps_of g b in set_deps g b (erase_all (to_remove g deps deps) deps)

-- The keys come in the order in which the map is traversed.
reduce_blocks : List ℕ → Deps → Deps
reduce_blocks [] g = g
reduce_blocks (b ∷ bs) g = reduce_blocks bs (reduce_block g b)

keys : Deps → List ℕ
keys [] = []
keys ((k, ds) ∷ g) = k ∷ keys g

pub transitive_reduction : Deps → Deps
unfolding reduce_blocks keys
transitive_reduction g = reduce_blocks (keys g) g
