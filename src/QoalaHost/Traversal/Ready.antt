-- ===== src/QoalaHost/Traversal/Ready.antt =====
-- What scanForReadyBlock finds, against a description of a ready block that does not run.
use qoala_mlir.Common.{
  ℕ, Bool, true, false, List, [], ◌∷◌, ◌++◌, ◌≡◌, refl, ap, Option, none, some, if◌then◌else◌, elem,
  not, ◌&&◌, ◌||◌, any, all, In, In→elem, elem→In, ◌⊎◌, inl, inr, arith, Bool-cases,
}
use qoala_mlir.QoalaHost.Graph.{Deps, deps_of, contains_key}
use qoala_mlir.QoalaHost.Traversal.{BlockPrerequisites, is_ready, scan_for_ready_block}

-- Not visited, not forbidden, every dependency visited, and a visited predecessor where it has some.
pub record IsReady (visited : List ℕ) (prereqs : BlockPrerequisites) (forbidden : List ℕ) (b : ℕ)
    : Type 0 where
  pub unvisited : ¬ In b visited
  pub allowed : ¬ In b forbidden
  pub dependencies_met : (d : ℕ) → In d (deps_of prereqs.dependencies b) → In d visited
  pub predecessor_met :
      (deps_of prereqs.predecessors b ≡ [])
      ⊎ ((p : ℕ) × In p (deps_of prereqs.predecessors b) × In p visited)

all-elem : (xs ys : List ℕ) → all (λ d. elem d ys) xs ≡ true → (d : ℕ) → In d xs → In d ys
all-elem [] ys h d m = absurd m
all-elem (x ∷ xs) ys h d (inl e) = rw e (elem→In x ys (ground arith))
all-elem (x ∷ xs) ys h d (inr m) = all-elem xs ys (ground arith) d m

pub elem-all : (xs ys : List ℕ) → ((d : ℕ) → In d xs → In d ys) → all (λ d. elem d ys) xs ≡ true
elem-all [] ys h = refl
elem-all (x ∷ xs) ys h =
    let p = In→elem x ys (h x (inl refl)) in
    let q = elem-all xs ys (λ d m. h d (inr m)) in rw (p, q) refl

any-elem : (xs ys : List ℕ) → any (λ d. elem d ys) xs ≡ true → (p : ℕ) × In p xs × In p ys
any-elem [] ys h = absurd cc
any-elem (x ∷ xs) ys h = elim (Bool-cases (elem x ys)) [
  | inl e ↦ (x, inl refl, elem→In x ys e)
  | inr e ↦ let (p, m, n) = any-elem xs ys (rw e at h) in (p, inr m, n)
]

elem-any : (xs ys : List ℕ) (p : ℕ) → In p xs → In p ys → any (λ d. elem d ys) xs ≡ true
elem-any [] ys p m n = absurd m
elem-any (x ∷ xs) ys p (inl e) n = let q = In→elem x ys (rw e at n) in rw q refl
elem-any (x ∷ xs) ys p (inr m) n = let q = elem-any xs ys p m n in ground arith

deps_of-no_key : (g : Deps) (b : ℕ) → contains_key g b ≡ false → deps_of g b ≡ []
unfolding deps_of contains_key
deps_of-no_key [] b h = refl
deps_of-no_key ((k, ds) ∷ g) b h = ground (arith, deps_of-no_key g b)

deps_test :
    (visited : List ℕ) (g : Deps) (b : ℕ)
    → (contains_key g b && not (all (λ d. elem d visited) (deps_of g b)))
      ≡ not (all (λ d. elem d visited) (deps_of g b))
deps_test visited g b = elim (Bool-cases (contains_key g b)) [
  | inl e ↦ rw e refl
  | inr e ↦ let p = deps_of-no_key g b e in rw (e, p) refl
]

preds_test : List ℕ → List ℕ → Bool
preds_test visited ps = elim ps [ [] ↦ true | p ∷ qs ↦ any (λ pred. elem pred visited) (p ∷ qs) ]

preds_test-true :
    (visited ps : List ℕ)
    → preds_test visited ps ≡ true
    → (ps ≡ []) ⊎ ((p : ℕ) × In p ps × In p visited)
unfolding preds_test
preds_test-true visited [] h = inl refl
preds_test-true visited (p ∷ ps) h = inr (any-elem (p ∷ ps) visited h)

true-preds_test :
    (visited ps : List ℕ)
    → (ps ≡ []) ⊎ ((p : ℕ) × In p ps × In p visited)
    → preds_test visited ps ≡ true
unfolding preds_test
true-preds_test visited [] h = refl
true-preds_test visited (p ∷ ps) (inl e) = absurd cc
true-preds_test visited (p ∷ ps) (inr (x, m, n)) = elem-any (p ∷ ps) visited x m n

is_ready-tests :
    (visited : List ℕ) (prereqs : BlockPrerequisites) (forbidden : List ℕ) (b : ℕ)
    → is_ready visited prereqs forbidden b ≡ (
        if elem b visited || elem b forbidden
        then false
        else if not (all (λ d. elem d visited) (deps_of prereqs.dependencies b))
        then false
        else preds_test visited (deps_of prereqs.predecessors b))
unfolding is_ready preds_test
is_ready-tests visited prereqs forbidden b = rw (deps_test visited prereqs.dependencies b) refl

is_ready-IsReady :
    (visited : List ℕ) (prereqs : BlockPrerequisites) (forbidden : List ℕ) (b : ℕ)
    → is_ready visited prereqs forbidden b ≡ true
    → IsReady visited prereqs forbidden b
is_ready-IsReady visited prereqs forbidden b h =
    let t = rw (is_ready-tests visited prereqs forbidden b) at h in
    record {
      unvisited = λ m. let e = In→elem b visited m in absurd (ground arith);
      allowed = λ m. let e = In→elem b forbidden m in absurd (ground arith);
      dependencies_met = all-elem (deps_of prereqs.dependencies b) visited (ground arith);
      predecessor_met = preds_test-true visited (deps_of prereqs.predecessors b) (ground arith);
    }

IsReady-is_ready :
    (visited : List ℕ) (prereqs : BlockPrerequisites) (forbidden : List ℕ) (b : ℕ)
    → IsReady visited prereqs forbidden b
    → is_ready visited prereqs forbidden b ≡ true
IsReady-is_ready visited prereqs forbidden b h =
    let p : elem b visited ≡ false = elim (Bool-cases (elem b visited)) [
      | inl e ↦ absurd (h.unvisited (elem→In b visited e))
      | inr e ↦ e
    ] in
    let q : elem b forbidden ≡ false = elim (Bool-cases (elem b forbidden)) [
      | inl e ↦ absurd (h.allowed (elem→In b forbidden e))
      | inr e ↦ e
    ] in
    let d = elem-all (deps_of prereqs.dependencies b) visited h.dependencies_met in
    let t = true-preds_test visited (deps_of prereqs.predecessors b) h.predecessor_met in
    rw (is_ready-tests visited prereqs forbidden b, p, q, d) t

-- The block found is the first of the region that is ready, and none is found exactly where no block is.
abbrev pub IsFirstReady : List ℕ → BlockPrerequisites → List ℕ → List ℕ → Option ℕ → Type 0
IsFirstReady visited prereqs forbidden region none =
    (b : ℕ) → In b region → ¬ IsReady visited prereqs forbidden b
IsFirstReady visited prereqs forbidden region (some b) =
    (before : List ℕ) × (after : List ℕ) × (region ≡ before ++ b ∷ after)
    × IsReady visited prereqs forbidden b
    × ((c : ℕ) → In c before → ¬ IsReady visited prereqs forbidden c)

IsFirstReady-cons :
    (visited : List ℕ) (prereqs : BlockPrerequisites) (forbidden : List ℕ) (a : ℕ) (region : List ℕ)
    (o : Option ℕ)
    → ¬ IsReady visited prereqs forbidden a
    → IsFirstReady visited prereqs forbidden region o
    → IsFirstReady visited prereqs forbidden (a ∷ region) o
IsFirstReady-cons visited prereqs forbidden a region none n h =
    λ b m r. elim m [ inl e ↦ n (rw e at r) | inr i ↦ h b i r ]
IsFirstReady-cons visited prereqs forbidden a region (some b) n (before, after, e, r, h) = (
  a ∷ before,
  after,
  ap (λ t. a ∷ t) e,
  r,
  λ c m k. elim m [ inl q ↦ n (rw q at k) | inr i ↦ h c i k ],
)

-- For every region, set of visited blocks, prerequisites and set of forbidden blocks: scanForReadyBlock
-- finds the first block of the region that is ready, and nullptr exactly where none is.
pub scan_for_ready_block-IsFirstReady :
    (region visited : List ℕ) (prereqs : BlockPrerequisites) (forbidden : List ℕ)
    → IsFirstReady visited prereqs forbidden region
        (scan_for_ready_block region visited prereqs forbidden)
unfolding scan_for_ready_block
scan_for_ready_block-IsFirstReady [] visited prereqs forbidden = λ b m r. absurd m
scan_for_ready_block-IsFirstReady (a ∷ region) visited prereqs forbidden =
    elim (Bool-cases (is_ready visited prereqs forbidden a)) [
      | inl e ↦
          rw e ([], region, refl, is_ready-IsReady visited prereqs forbidden a e, λ c m k. absurd m)
      | inr e ↦ rw e (
          IsFirstReady-cons visited prereqs forbidden a region _
            (λ r. let t = IsReady-is_ready visited prereqs forbidden a r in cc)
            (scan_for_ready_block-IsFirstReady region visited prereqs forbidden))
    ]
