-- ===== src/QNet/DeadCode/Outcome.antt =====
-- What the dead code elimination leaves and when it fails, in terms of the program alone.
use qoala_mlir.Common.{ℕ, ◌≡◌, ◌⊎◌, Bool, true, false, List, [], ◌∷◌, In, Any}
use qoala_mlir.QNet.DeadCode.{Operation}

abbrev pub Uses : Operation → Operation → Type 0
Uses op user = (v : ℕ) × In v user.operands × In v op.results

-- A dead operation has a result that a later operation uses which is not dead.
abbrev pub Escapes : (Operation → Bool) → List Operation → Type 0
Escapes dead [] = ⊥
Escapes dead (op ∷ ops) =
    ((dead op ≡ true) × Any (λ user. (dead user ≡ false) × Uses op user) ops) ⊎ Escapes dead ops
