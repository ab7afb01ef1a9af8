-- ===== src/QoalaHost/Precedences/Reduction.antt =====
-- The transitive reduction keeps reachability in an acyclic graph.
use qoala_mlir.Common.{
  ℕ, zero, suc, ◌+◌, ◌≤◌, ◌<◌, true, false, List, [], ◌∷◌, ◌≡◌, refl, sym, ◌↔◌, ◌⊎◌, inl, inr, ◌==◌,
  if◌then◌else◌, elem, In, keep, not, arith, Bool-cases, elem→In, In→elem, In-keep, keep-In,
  In-append, append-In_left, append-In_right, ==_iff, ==_refl,
}
use qoala_mlir.QoalaHost.Graph.{Deps, deps_of, contains_key, deps_of-set_deps}
use qoala_mlir.QoalaHost.Precedences.{
  shared_deps, to_remove, erase_all, reduce_block, reduce_blocks, keys, transitive_reduction,
}

-- a must come after b: a chain of dependencies leads from a to b.
pub data Reaches (g : Deps) : ℕ → ℕ → Type 0 where
  direct : {a b : ℕ} → In b (deps_of g a) → Reaches g a b
  through : {a b c : ℕ} → In b (deps_of g a) → Reaches g b c → Reaches g a c

-- A rank that falls along every dependency: the graph has no cycle.
abbrev pub IsRanked : Deps → (ℕ → ℕ) → Type 0
IsRanked g rank = (a b : ℕ) → In b (deps_of g a) → rank b < rank a

shared_deps-eq-keep : (deps ts : List ℕ) → shared_deps deps ts ≡ keep (λ t. elem t deps) ts
unfolding shared_deps
shared_deps-eq-keep deps [] = refl
shared_deps-eq-keep deps (t ∷ ts) = ground (arith, shared_deps-eq-keep deps ts)

-- What is removed is a dependency of another direct dependency.
In-to_remove :
    (g : Deps) (deps ds : List ℕ) (t : ℕ)
    → In t (to_remove g deps ds)
    → (d : ℕ) × In d ds × In t (deps_of g d)
unfolding to_remove
In-to_remove g deps [] t m = elim m [ ]
In-to_remove g deps (d ∷ ds) t m = elim (Bool-cases (contains_key g d)) [
  | inr e ↦ let (c, i, j) = In-to_remove g deps ds t (rw e at m) in (c, inr i, j)
  | inl e ↦ elim (In-append t (shared_deps deps (deps_of g d)) (to_remove g deps ds) (rw e at m)) [
    | inl i ↦ (
      d,
      inl refl,
      (In-keep (λ t. elem t deps) t (deps_of g d)
          (rw (shared_deps-eq-keep deps (deps_of g d)) at i)).0,
    )
    | inr i ↦ let (c, j, k) = In-to_remove g deps ds t i in (c, inr j, k)
  ]
]

deps_of-missing : (g : Deps) (b : ℕ) → contains_key g b ≡ false → deps_of g b ≡ []
unfolding deps_of contains_key
deps_of-missing [] b h = refl
deps_of-missing ((k, ds) ∷ g) b h = ground (arith, deps_of-missing g b)

-- Conversely a shared dependency of a direct dependency is removed.
to_remove-In :
    (g : Deps) (deps ds : List ℕ) (d t : ℕ)
    → In d ds
    → In t (deps_of g d)
    → In t deps
    → In t (to_remove g deps ds)
unfolding to_remove
to_remove-In g deps [] d t i j k = elim i [ ]
to_remove-In g deps (c ∷ ds) d t (inl e) j k = elim (Bool-cases (contains_key g c)) [
  | inl q ↦ rw q (
      append-In_left t (shared_deps deps (deps_of g c)) _ (
        rw (shared_deps-eq-keep deps (deps_of g c))
          (keep-In (λ t. elem t deps) t (deps_of g c) (rw e at j) (In→elem t deps k))))
  | inr q ↦ absurd (rw (e, deps_of-missing g c q) at j)
]
to_remove-In g deps (c ∷ ds) d t (inr i) j k = elim (Bool-cases (contains_key g c)) [
  | inl q ↦
      rw q (append-In_right t (shared_deps deps (deps_of g c)) _ (to_remove-In g deps ds d t i j k))
  | inr q ↦ rw q (to_remove-In g deps ds d t i j k)
]

reduced : Deps → ℕ → List ℕ
reduced g b = erase_all (to_remove g (deps_of g b) (deps_of g b)) (deps_of g b)

deps_of-reduce_block :
    (g : Deps) (b c : ℕ)
    → deps_of (reduce_block g b) c ≡ (if b == c then reduced g b else deps_of g c)
unfolding reduce_block reduced
deps_of-reduce_block g b c = elim (Bool-cases (contains_key g b)) [
  | inl e ↦ rw (
    deps_of-set_deps g b c (erase_all (to_remove g (deps_of g b) (deps_of g b)) (deps_of g b)),
    e,
  )
  | inr e ↦
      let none_here = deps_of-missing g b e in
      let nothing : reduced g b ≡ [] = unfold reduced erase_all in rw none_here refl in
      ground (
        arith,
        deps_of-set_deps g b c (erase_all (to_remove g (deps_of g b) (deps_of g b)) (deps_of g b)),
        e,
        none_here,
        nothing,
      )
]

In-reduced : (g : Deps) (b t : ℕ) → In t (reduced g b) → In t (deps_of g b)
unfolding reduced erase_all
In-reduced g b t m = (In-keep _ t (deps_of g b) m).0

-- A dependency stays, or is one of a direct dependency.
reduced-cases :
    (g : Deps) (b t : ℕ)
    → In t (deps_of g b)
    → In t (reduced g b) ⊎ ((d : ℕ) × In d (deps_of g b) × In t (deps_of g d))
unfolding reduced erase_all
reduced-cases g b t m =
    let removed = to_remove g (deps_of g b) (deps_of g b) in
    elim (Bool-cases (elem t removed)) [
      | inl e ↦ inr (In-to_remove g (deps_of g b) (deps_of g b) t (elem→In t removed e))
      | inr e ↦ inl (keep-In (λ d. not (elem d removed)) t (deps_of g b) m (rw e))
    ]

reduce_block-subset :
    (g : Deps) (b a t : ℕ) → In t (deps_of (reduce_block g b) a) → In t (deps_of g a)
reduce_block-subset g b a t m =
    let m' = rw (deps_of-reduce_block g b a) at m in
    elim (Bool-cases (b == a)) [
      | inl e ↦ rw (← (==_iff b a).0 e) (In-reduced g b t (rw e at m'))
      | inr e ↦ rw e at m'
    ]

reduce_block-other :
    (g : Deps) (b a t : ℕ)
    → (b == a) ≡ false
    → In t (deps_of g a)
    → In t (deps_of (reduce_block g b) a)
reduce_block-other g b a t e m = rw (deps_of-reduce_block g b a, e) m

Reaches-trans : {g : Deps} {a b c : ℕ} → Reaches g a b → Reaches g b c → Reaches g a c
Reaches-trans (direct m) q = through m q
Reaches-trans (through m p) q = through m (Reaches-trans p q)

Reaches-map :
    (g h : Deps)
    → ((a t : ℕ) → In t (deps_of g a) → Reaches h a t)
    → {a c : ℕ} → Reaches g a c
    → Reaches h a c
Reaches-map g h f (direct m) = f _ _ m
Reaches-map g h f (through m p) = Reaches-trans (f _ _ m) (Reaches-map g h f p)

module _ (g : Deps) (rank : ℕ → ℕ) (ranked : IsRanked g rank) (b : ℕ) where
  -- By induction on how far the rank of the dependency lies below that of the block.
  reduce_block-direct :
      (n t : ℕ) → rank b ≤ rank t + n → In t (deps_of g b) → Reaches (reduce_block g b) b t
  reduce_block-direct zero t h m = absurd (omega (arith, ranked b t m))
  reduce_block-direct (suc n) t h m = elim (reduced-cases g b t m) [
    | inl i ↦ direct (rw (deps_of-reduce_block g b b, ==_refl b) i)
    | inr (d, i, j) ↦
        let above = ranked d t j in
        let below = ranked b d i in
        Reaches-trans (reduce_block-direct n d (omega arith) i)
          (direct (reduce_block-other g b d t (ground arith) j))
  ]

  reduce_block-edge : (a t : ℕ) → In t (deps_of g a) → Reaches (reduce_block g b) a t
  reduce_block-edge a t m = elim (Bool-cases (b == a)) [
    | inl e ↦
        rw (← (==_iff b a).0 e)
          (reduce_block-direct (rank b) t (omega arith) (rw (← (==_iff b a).0 e) at m))
    | inr e ↦ direct (reduce_block-other g b a t e m)
  ]

  reduce_block-IsRanked : IsRanked (reduce_block g b) rank
  reduce_block-IsRanked a t m = ranked a t (reduce_block-subset g b a t m)

reduce_blocks-subset :
    (bs : List ℕ) (g : Deps) (a t : ℕ) → In t (deps_of (reduce_blocks bs g) a) → In t (deps_of g a)
unfolding reduce_blocks
reduce_blocks-subset [] g a t m = m
reduce_blocks-subset (b ∷ bs) g a t m =
    reduce_block-subset g b a t (reduce_blocks-subset bs (reduce_block g b) a t m)

reduce_blocks-edge :
    (bs : List ℕ) (g : Deps) (rank : ℕ → ℕ)
    → IsRanked g rank
    → (a t : ℕ) → In t (deps_of g a)
    → Reaches (reduce_blocks bs g) a t
unfolding reduce_blocks
reduce_blocks-edge [] g rank r a t m = direct m
reduce_blocks-edge (b ∷ bs) g rank r a t m =
    Reaches-map (reduce_block g b) (reduce_blocks bs (reduce_block g b))
      (reduce_blocks-edge bs (reduce_block g b) rank (reduce_block-IsRanked g rank r b))
      (reduce_block-edge g rank r b a t m)

-- In a graph without cycles the transitive reduction removes no ordering: exactly the same chains
-- of dependencies exist before and after, whatever the order in which the blocks are visited.
pub transitive_reduction-Reaches :
    (g : Deps) (rank : ℕ → ℕ)
    → IsRanked g rank
    → (a c : ℕ) → Reaches (transitive_reduction g) a c ↔ Reaches g a c
unfolding transitive_reduction
transitive_reduction-Reaches g rank r a c = (
  Reaches-map (transitive_reduction g) g (λ x t m. direct (reduce_blocks-subset (keys g) g x t m)),
  Reaches-map g (transitive_reduction g) (reduce_blocks-edge (keys g) g rank r),
)

-- No dependency of `b` is at once a dependency of another dependency of `b`.
abbrev pub HasNoShortcut : Deps → ℕ → Type 0
HasNoShortcut g b = (d t : ℕ) → In d (deps_of g b) → In t (deps_of g d) → In t (deps_of g b) → ⊥

reduce_block-HasNoShortcut : (g : Deps) (b : ℕ) → HasNoShortcut (reduce_block g b) b
reduce_block-HasNoShortcut g b d t i j k =
    let removed = to_remove g (deps_of g b) (deps_of g b) in
    let eq = deps_of-reduce_block g b b in
    let i' : In d (reduced g b) = rw (eq, ==_refl b) at i in
    let k' : In t (reduced g b) = rw (eq, ==_refl b) at k in
    let gone =
      to_remove-In g (deps_of g b) (deps_of g b) d t (In-reduced g b d i')
        (reduce_block-subset g b d t j) (In-reduced g b t k') in
    absurd_kept removed t (In→elem t removed gone)
      (unfold reduced erase_all in (In-keep _ t (deps_of g b) k').1)
  where
    absurd_kept :
        (removed : List ℕ) (t : ℕ) → elem t removed ≡ true → not (elem t removed) ≡ true → ⊥
    absurd_kept removed t p q = ground arith

reduce_blocks-HasNoShortcut :
    (bs : List ℕ) (g : Deps) (b : ℕ)
    → In b bs ⊎ HasNoShortcut g b
    → HasNoShortcut (reduce_blocks bs g) b
unfolding reduce_blocks
reduce_blocks-HasNoShortcut [] g b (inl m) = elim m [ ]
reduce_blocks-HasNoShortcut [] g b (inr h) = h
reduce_blocks-HasNoShortcut (c ∷ bs) g b (inl (inl e)) =
    reduce_blocks-HasNoShortcut bs (reduce_block g c) b
      (inr (rw e (reduce_block-HasNoShortcut g c)))
reduce_blocks-HasNoShortcut (c ∷ bs) g b (inl (inr m)) =
    reduce_blocks-HasNoShortcut bs (reduce_block g c) b (inl m)
reduce_blocks-HasNoShortcut (c ∷ bs) g b (inr h) =
    reduce_blocks-HasNoShortcut bs (reduce_block g c) b (
      inr (λ d t i j k.
        h d t (reduce_block-subset g c b d i) (reduce_block-subset g c d t j)
          (reduce_block-subset g c b t k)))

In-keys : (g : Deps) (b : ℕ) → contains_key g b ≡ true → In b (keys g)
unfolding contains_key keys
In-keys [] b h = ground arith
In-keys ((k, ds) ∷ g) b h = elim (Bool-cases (k == b)) [
  | inl e ↦ inl (sym ((==_iff k b).0 e))
  | inr e ↦ inr (In-keys g b (rw e at h))
]

-- After the reduction no dependency is implied by a chain of two others. No acyclicity is needed.
pub transitive_reduction-HasNoShortcut :
    (g : Deps) (b : ℕ) → HasNoShortcut (transitive_reduction g) b
unfolding transitive_reduction
transitive_reduction-HasNoShortcut g b = elim (Bool-cases (contains_key g b)) [
  | inl e ↦ reduce_blocks-HasNoShortcut (keys g) g b (inl (In-keys g b e))
  | inr e ↦ λ d t i j k. rw (deps_of-missing g b e) at (reduce_blocks-subset (keys g) g b d i)
]
