-- ===== src/QoalaHost/Ordering/References.antt =====
-- The loop that moves blocks while it walks over them.
use qoala_mlir.Common.{
  ℕ, zero, suc, ◌+◌, ◌≤◌, ◌≡◌, refl, sym, ap, ◌∙◌, inl, inr, Bool, true, false, not, ◌||◌, List, [],
  ◌∷◌, ◌++◌, some, ◌==◌, elem, elem-append, keep, IsNodup, length, length-append, append_assoc,
  append_nil, arith, Bool-cases,
}
use qoala_mlir.QoalaHost.Ordering.{
  front, get_next_node, move_before, move_from, rounds, move_remote_references_block_to_begin,
}
use qoala_mlir.QoalaHost.Ordering.Placement.{remove-absent, insert-front, next-behind, keep-append}

pub IsNodup-middle :
    (b : ℕ) (xs ys : List ℕ)
    → IsNodup (xs ++ b ∷ ys)
    → (elem b xs ≡ false) × (elem b ys ≡ false) × IsNodup (xs ++ ys)
IsNodup-middle b [] ys (h, k) = (refl, h, k)
IsNodup-middle b (x ∷ xs) ys (h, k) =
    let (m, n, r) = IsNodup-middle b xs ys k in
    let h' = rw (elem-append x xs (b ∷ ys)) at h in
    (ground arith, n, (rw (elem-append x xs ys) (ground arith), r))

module _ (has_ref : ℕ → Bool) (f : ℕ) where
  abbrev refs : List ℕ → List ℕ
  refs blocks = keep has_ref blocks

  abbrev others : List ℕ → List ℕ
  others blocks = keep (λ b. not (has_ref b)) blocks

  -- A block behind the front block is moved before it.
  moved_before :
      (b : ℕ) (moved skipped rest : List ℕ)
      → (f == b) ≡ false
      → elem b moved ≡ false
      → elem b skipped ≡ false
      → elem b rest ≡ false
      → elem f moved ≡ false
      → move_before b f (moved ++ f ∷ (skipped ++ b ∷ rest)) ≡ moved ++ b ∷ f ∷ (skipped ++ rest)
  unfolding move_before
  moved_before b moved skipped rest n m s r u =
      let n' : (b == f) ≡ false = ground arith in
      let e : (b == b) ≡ true = ground arith in
      let a = keep-append (λ c. not (c == b)) moved (f ∷ (skipped ++ b ∷ rest)) in
      let c = keep-append (λ c. not (c == b)) skipped (b ∷ rest) in
      let p = remove-absent b moved m in
      let q = remove-absent b skipped s in
      let t = remove-absent b rest r in
      rw (n', a, n, c, e, p, q, t) (insert-front b f moved (skipped ++ rest) u)

  -- Fresh blocks: none of a list is the front block or among the moved or skipped ones, and none is twice.
  abbrev Apart : List ℕ → List ℕ → Type 0
  Apart moved tail =
      IsNodup tail
      × (elem f moved ≡ false)
      × (elem f tail ≡ false)
      × ((c : ℕ) → elem c tail ≡ true → elem c moved ≡ false)

  abbrev Walks : ℕ → ℕ → List ℕ → List ℕ → List ℕ → Type 0
  Walks n fuel moved skipped rest =
      move_from has_ref f fuel (front rest) (moved ++ f ∷ (skipped ++ rest))
      ≡ some (moved ++ (refs rest ++ f ∷ (others skipped ++ others rest)))

  pass_by :
      (fuel b : ℕ) (blocks : List ℕ)
      → has_ref b ≡ false
      → move_from has_ref f (suc fuel) (some b) blocks
        ≡ move_from has_ref f fuel (get_next_node b blocks) blocks
  unfolding move_from
  pass_by fuel b blocks t = rw (move_from, t) refl

  go_on :
      (fuel b : ℕ) (blocks blocks' : List ℕ)
      → has_ref b ≡ true
      → move_before b f blocks ≡ blocks'
      → move_from has_ref f (suc fuel) (some b) blocks
        ≡ move_from has_ref f fuel (get_next_node b blocks') blocks'
  unfolding move_from
  go_on fuel b blocks blocks' t e = rw (move_from, t, e) refl

  move_before-front : (blocks : List ℕ) → move_before f f blocks ≡ blocks
  unfolding move_before
  move_before-front blocks = let e : (f == f) ≡ true = ground arith in rw e refl

  -- The front block stays where it is.
  at_front :
      (fuel : ℕ) (blocks : List ℕ)
      → move_from has_ref f (suc fuel) (some f) blocks
        ≡ move_from has_ref f fuel (get_next_node f blocks) blocks
  at_front fuel blocks = elim (Bool-cases (has_ref f)) [
    | inl t ↦ go_on fuel f blocks blocks t (move_before-front blocks)
    | inr t ↦ pass_by fuel f blocks t
  ]

  -- A block without a reference is passed.
  skip_step :
      (n fuel b : ℕ) (moved skipped rest : List ℕ)
      → has_ref b ≡ false
      → elem b (moved ++ f ∷ skipped) ≡ false
      → Walks n fuel moved (skipped ++ b ∷ []) rest
      → Walks n (suc fuel) moved skipped (b ∷ rest)
  skip_step n fuel b moved skipped rest t out ih =
      let same = append_assoc moved (f ∷ skipped) (b ∷ rest) in
      let next = rw same at (next-behind b (moved ++ f ∷ skipped) rest out) in
      let joined = append_assoc skipped (b ∷ []) rest in
      let split = keep-append (λ c. not (has_ref c)) skipped (b ∷ []) in
      let regrouped = append_assoc (others skipped) (b ∷ []) (others rest) in
      let go =
        pass_by fuel b (moved ++ f ∷ (skipped ++ b ∷ rest)) t
        ∙ ap (λ c. move_from has_ref f fuel c (moved ++ f ∷ (skipped ++ b ∷ rest))) next in
      let ih' = rw (joined, split, t, regrouped) at ih in rw t (go ∙ ih')

  -- A block with a reference is moved, and the walk goes on at the front block.
  jump_step :
      (n fuel b : ℕ) (moved skipped rest : List ℕ)
      → has_ref b ≡ true
      → (f == b) ≡ false
      → elem b moved ≡ false
      → elem b skipped ≡ false
      → elem b rest ≡ false
      → elem f moved ≡ false
      → refs skipped ≡ []
      → Walks n fuel (moved ++ b ∷ []) [] (skipped ++ rest)
      → Walks n (suc (suc fuel)) moved skipped (b ∷ rest)
  jump_step n fuel b moved skipped rest t n' m s r u e ih =
      let there = moved_before b moved skipped rest n' m s r u in
      let next = next-behind b moved (f ∷ (skipped ++ rest)) m in
      let list = append_assoc moved (b ∷ []) (f ∷ (skipped ++ rest)) in
      let out : elem f (moved ++ b ∷ []) ≡ false =
        rw (elem-append f moved (b ∷ []), u) (ground arith) in
      let behind = rw list at (next-behind f (moved ++ b ∷ []) (skipped ++ rest) out) in
      let blocks = moved ++ b ∷ f ∷ (skipped ++ rest) in
      let go =
        go_on (suc fuel) b (moved ++ f ∷ (skipped ++ b ∷ rest)) blocks t there
        ∙ ap (λ c. move_from has_ref f (suc fuel) c blocks) next
        ∙ at_front fuel blocks
        ∙ ap (λ c. move_from has_ref f fuel c blocks) behind in
      let split = keep-append has_ref skipped rest in
      let split' = keep-append (λ c. not (has_ref c)) skipped rest in
      let found = append_assoc moved (b ∷ []) (refs rest ++ f ∷ (others skipped ++ others rest)) in
      let ih' = rw (list, split, e, split', found) at ih in rw t (go ∙ ih')

  -- What holds before each round, with the fuel that is enough.
  abbrev IsReady : ℕ → ℕ → List ℕ → List ℕ → List ℕ → Type 0
  IsReady n fuel moved skipped rest =
      Apart moved (skipped ++ rest)
      × (refs skipped ≡ [])
      × (length (skipped ++ rest) ≤ n)
      × (length rest + rounds (length (refs rest)) n ≤ fuel)

  differs : (b : ℕ) (xs ys : List ℕ) → elem f (xs ++ b ∷ ys) ≡ false → (f == b) ≡ false
  differs b xs ys h = let e = rw (elem-append f xs (b ∷ ys)) at h in ground arith

  middle : (b : ℕ) (xs ys : List ℕ) → elem b (xs ++ b ∷ ys) ≡ true
  middle b xs ys = rw (elem-append b xs (b ∷ ys)) (ground arith)

  skip_case :
      (n fuel b : ℕ) (moved skipped rest : List ℕ)
      → IsReady n (suc fuel) moved skipped (b ∷ rest)
      → has_ref b ≡ false
      → (IsReady n fuel moved (skipped ++ b ∷ []) rest
          → Walks n fuel moved (skipped ++ b ∷ []) rest)
      → Walks n (suc fuel) moved skipped (b ∷ rest)
  skip_case n fuel b moved skipped rest ((d, u, v, a), e, k, l) t ih =
      let (s, r, d') = IsNodup-middle b skipped rest d in
      let m = a b (middle b skipped rest) in
      let n' = differs b skipped rest v in
      let out : elem b (moved ++ f ∷ skipped) ≡ false =
        rw (elem-append b moved (f ∷ skipped), m) (ground arith) in
      let joined = append_assoc skipped (b ∷ []) rest in
      let none_left : refs (skipped ++ b ∷ []) ≡ [] =
        rw (keep-append has_ref skipped (b ∷ []), e, t) refl in
      let l' = rw t at l in
      skip_step n fuel b moved skipped rest t out
        (ih (rw joined (d, u, v, a), none_left, rw joined k, omega arith))

  jump_case :
      (n fuel b : ℕ) (moved skipped rest : List ℕ)
      → IsReady n (suc (suc fuel)) moved skipped (b ∷ rest)
      → has_ref b ≡ true
      → (IsReady n fuel (moved ++ b ∷ []) [] (skipped ++ rest)
          → Walks n fuel (moved ++ b ∷ []) [] (skipped ++ rest))
      → Walks n (suc (suc fuel)) moved skipped (b ∷ rest)
  jump_case n fuel b moved skipped rest ((d, u, v, a), e, k, l) t ih =
      let (s, r, d') = IsNodup-middle b skipped rest d in
      let m = a b (middle b skipped rest) in
      let n' = differs b skipped rest v in
      let l' = rw t at l in
      let split = keep-append has_ref skipped rest in
      let size = length-append skipped rest in
      let size' = length-append skipped (b ∷ rest) in
      jump_step n fuel b moved skipped rest t n' m s r u e (
        ih (
          (
            d',
            rw (elem-append f moved (b ∷ []), u) (ground arith),
            apart_f skipped rest v,
            apart_moved s r a,
          ),
          refl,
          omega arith,
          rw (split, e) (omega arith),
        ))
    where
      apart_f :
          (skipped rest : List ℕ)
          → elem f (skipped ++ b ∷ rest) ≡ false
          → elem f (skipped ++ rest) ≡ false
      apart_f skipped rest v =
          let w = rw (elem-append f skipped (b ∷ rest)) at v in
          rw (elem-append f skipped rest) (ground arith)

      apart_moved :
          elem b skipped ≡ false
          → elem b rest ≡ false
          → ((c : ℕ) → elem c (skipped ++ b ∷ rest) ≡ true → elem c moved ≡ false)
          → (c : ℕ) → elem c (skipped ++ rest) ≡ true
          → elem c (moved ++ b ∷ []) ≡ false
      apart_moved s r a c h =
          let g = rw (elem-append c skipped rest) at h in
          rw (elem-append c moved (b ∷ [])) (elim (Bool-cases (c == b)) [
            | inl i ↦
                let p : c ≡ b = ground arith in
                absurd (let g' : (elem b skipped || elem b rest) ≡ true = rw p at g in ground arith)
            | inr i ↦
                let q = a c (rw (elem-append c skipped (b ∷ rest)) (ground arith)) in ground arith
          ])

  no_refs : (xs : List ℕ) → refs xs ≡ [] → others xs ≡ xs
  no_refs [] e = refl
  no_refs (x ∷ xs) e = elim (Bool-cases (has_ref x)) [
    | inl t ↦ let g = rw t at e in absurd cc
    | inr t ↦ rw t (ap (λ t. x ∷ t) (no_refs xs (rw t at e)))
  ]

  walk_lem :
      (n fuel : ℕ) (moved skipped rest : List ℕ)
      → IsReady n fuel moved skipped rest
      → Walks n fuel moved skipped rest
  unfolding move_from
  walk_lem n fuel moved skipped [] (h, e, k, l) =
      rw (append_nil skipped, append_nil (others skipped))
        (ap (λ t. some (moved ++ f ∷ t)) (sym (no_refs skipped e)))
  walk_lem n zero moved skipped (b ∷ rest) (h, e, k, l) = absurd (omega arith)
  walk_lem n (suc zero) moved skipped (b ∷ rest) (h, e, k, l) = elim (Bool-cases (has_ref b)) [
    | inl t ↦ let l' = rw t at l in absurd (omega arith)
    | inr t ↦
        skip_case n zero b moved skipped rest (h, e, k, l) t
          (walk_lem n zero moved (skipped ++ b ∷ []) rest)
  ]
  walk_lem n (suc (suc fuel)) moved skipped (b ∷ rest) h = elim (Bool-cases (has_ref b)) [
    | inl t ↦
        jump_case n fuel b moved skipped rest h t
          (walk_lem n fuel (moved ++ b ∷ []) [] (skipped ++ rest))
    | inr t ↦
        skip_case n (suc fuel) b moved skipped rest h t
          (walk_lem n (suc fuel) moved (skipped ++ b ∷ []) rest)
  ]

length-keep : (p : ℕ → Bool) (xs : List ℕ) → length (keep p xs) ≤ length xs
length-keep p [] = omega arith
length-keep p (x ∷ xs) = ground (arith, length-keep p xs)

rounds_mono : (a b n : ℕ) → a ≤ b → rounds a n ≤ rounds b n
rounds_mono zero b n l = omega arith
rounds_mono (suc a) zero n l = absurd (omega arith)
rounds_mono (suc a) (suc b) n l = omega (arith, rounds_mono a b n (omega arith))

-- The loop ends, although it starts again at the front block with each move: the blocks with a reference
-- come before the front block in their order, and the others stay behind it in theirs.
pub move_remote_references_block_to_begin_lem :
    (has_ref : ℕ → Bool) (b : ℕ) (blocks : List ℕ)
    → IsNodup (b ∷ blocks)
    → move_remote_references_block_to_begin has_ref (b ∷ blocks)
      ≡ some (keep has_ref blocks ++ b ∷ keep (λ c. not (has_ref c)) blocks)
unfolding move_remote_references_block_to_begin get_next_node
move_remote_references_block_to_begin_lem has_ref b blocks (m, n) =
    let size = length blocks in
    let few = rounds_mono (length (keep has_ref blocks)) size size (length-keep has_ref blocks) in
    let e : (b == b) ≡ true = ground arith in
    at_front has_ref b (size + rounds size size) (b ∷ blocks)
    ∙ rw (get_next_node, e)
        (walk_lem has_ref b size (size + rounds size size) [] [] blocks
          ((n, refl, m, λ c h. refl), refl, omega arith, omega arith))
