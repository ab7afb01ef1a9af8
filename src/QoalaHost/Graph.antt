-- ===== src/QoalaHost/Graph.antt =====
-- A graph of blocks as `llvm::DenseMap<Block *, std::unordered_set<Block *>>`: an association list
-- from a block (its number stands for the pointer) to the blocks that it depends on.
use qoala_mlir.Common.{
  ℕ, Bool, true, false, List, [], ◌∷◌, ◌++◌, ◌≡◌, ◌==◌, if◌then◌else◌, elem, arith,
}

abbrev pub Deps : Type 0
Deps = List (ℕ × List ℕ)

-- blockDeps.at(b), or no dependencies where b is no key.
unfoldable pub deps_of : Deps → ℕ → List ℕ
deps_of [] b = []
deps_of ((k, ds) ∷ g) b = if k == b then ds else deps_of g b

unfoldable pub contains_key : Deps → ℕ → Bool
contains_key [] b = false
contains_key ((k, ds) ∷ g) b = if k == b then true else contains_key g b

-- blockDeps[b] = ds for a key that is there.
unfoldable pub set_deps : Deps → ℕ → List ℕ → Deps
set_deps [] b es = []
set_deps ((k, ds) ∷ g) b es = if k == b then (k, es) ∷ g else (k, ds) ∷ set_deps g b es

-- blockDeps[b].insert(d)
insert_into : List ℕ → ℕ → List ℕ
insert_into ds d = if elem d ds then ds else ds ++ (d ∷ [])

unfoldable pub add_dep : Deps → ℕ → ℕ → Deps
unfolding insert_into
add_dep [] b d = (b, d ∷ []) ∷ []
add_dep ((k, ds) ∷ g) b d = if k == b then (k, insert_into ds d) ∷ g else (k, ds) ∷ add_dep g b d

pub deps_of-set_deps :
    (g : Deps) (b c : ℕ) (es : List ℕ)
    → deps_of (set_deps g b es) c
      ≡ (if contains_key g b then (if b == c then es else deps_of g c) else deps_of g c)
unfolding deps_of set_deps contains_key
deps_of-set_deps [] b c es = ground arith
deps_of-set_deps ((k, ds) ∷ g) b c es = ground (arith, deps_of-set_deps g b c es)
