-- ===== src/Common/Search.antt =====
-- A worklist search: pop a node, skip it if it was seen, stop at a hit, else push its successors.
-- The head of the worklist is its top.
pub mod Reach
pub mod Fuel
use qoala_mlir.Common.{
  ℕ, zero, suc, Bool, true, false, List, [], ◌∷◌, ◌++◌, Option, none, some, if◌then◌else◌, elem,
}

-- worklist.push_back, one after the other.
unfoldable pub push_all : List ℕ → List ℕ → List ℕ
push_all [] worklist = worklist
push_all (x ∷ xs) worklist = push_all xs (x ∷ worklist)

-- `none` is a search that ran out of fuel; else whether a hit was met, and what was seen.
unfoldable pub depth_first :
    (ℕ → Bool) → (ℕ → List ℕ) → ℕ → List ℕ → List ℕ → Option (Bool × List ℕ)
unfolding push_all
depth_first hit next fuel [] seen = some (false, seen)
depth_first hit next zero (v ∷ worklist) seen = none
depth_first hit next (suc fuel) (v ∷ worklist) seen = elim (elem v seen) [
  | true ↦ depth_first hit next fuel worklist seen
  | false ↦ elim (hit v) [
    | true ↦ some (true, v ∷ seen)
    | false ↦ depth_first hit next fuel (push_all (next v) worklist) (v ∷ seen)
  ]
]
