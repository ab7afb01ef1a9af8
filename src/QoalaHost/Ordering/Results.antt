-- ===== src/QoalaHost/Ordering/Results.antt =====
-- The order of the blocks in the end.
use qoala_mlir.Common.{
  ℕ, ◌≡◌, refl, sym, ap, ◌∙◌, ◌⊎◌, inl, inr, Bool, true, not, ◌&&◌, List, [], ◌∷◌, ◌++◌, map,
  Option, none, some, ◌==◌, elem, keep, IsNodup, IsNodup-keep, arith, Bool-cases,
}
use qoala_mlir.QoalaHost.Ordering.{
  group_entanglement_blocks_first, Mark, blk_meta, Map, lookup, mark_blocks, find_blocks,
  move_return_block, reorder_blocks_by_milp_order,
}
use qoala_mlir.QoalaHost.Ordering.Placement.{place_all_lem}

elem-keep : (p : ℕ → Bool) (c : ℕ) (xs : List ℕ) → elem c (keep p xs) ≡ (elem c xs && p c)
elem-keep p c [] = refl
elem-keep p c (x ∷ xs) = elim (Bool-cases (c == x)) [
  | inl e ↦ let f : c ≡ x = ground arith in let r = elem-keep p x xs in rw f (ground (arith, r))
  | inr e ↦ ground (arith, elem-keep p c xs)
]

keep-cong_on :
    (p q : ℕ → Bool) (xs : List ℕ)
    → ((x : ℕ) → elem x xs ≡ true → p x ≡ q x)
    → keep p xs ≡ keep q xs
keep-cong_on p q [] h = refl
keep-cong_on p q (x ∷ xs) h =
    let e = h x (ground arith) in
    let r = keep-cong_on p q xs (λ y m. h y (ground arith)) in
    elim (Bool-cases (q x)) [ inl t ↦ rw (e, t) (ap (λ t. x ∷ t) r) | inr t ↦ rw (e, t) r ]

-- In a function of distinct blocks groupEntanglementBlocksFirst is a stable partition, and no null pointer is dereferenced: the entanglement
-- blocks come in their order, then the others in theirs.
pub group_entanglement_blocks_first_lem :
    (is_qc : ℕ → Bool) (blocks : List ℕ)
    → IsNodup blocks
    → group_entanglement_blocks_first is_qc blocks
      ≡ some (keep is_qc blocks ++ keep (λ b. not (is_qc b)) blocks)
unfolding group_entanglement_blocks_first
group_entanglement_blocks_first_lem is_qc blocks n =
    let placed =
      place_all_lem (keep is_qc blocks) [] blocks (IsNodup-keep is_qc blocks n)
        (λ b h. let e = rw (elem-keep is_qc b blocks) at h in ground arith) n (λ c h. refl) in
    let others =
      keep-cong_on (λ x. not (elem x (keep is_qc blocks))) (λ x. not (is_qc x)) blocks
        (λ x m. rw (elem-keep is_qc x blocks, m) (ground arith)) in
    placed ∙ ap (λ t. some (keep is_qc blocks ++ t)) others

module _ (mark : ℕ → Mark) (id_of : ℕ → ℕ) (all_blocks : List ℕ) where
  -- Every block starts with its blk_meta.
  abbrev pub HasMeta : Type 0
  HasMeta = (b : ℕ) → elem b all_blocks ≡ true → mark b ≡ blk_meta (id_of b)

  -- Different blocks have different ids.
  abbrev pub HasDistinctIds : Type 0
  HasDistinctIds =
      (b c : ℕ) → elem b all_blocks ≡ true → elem c all_blocks ≡ true → id_of b ≡ id_of c → b ≡ c

  mark_blocks-none :
      (blocks : List ℕ) (found : Map × Option ℕ)
      → HasMeta
      → ((b : ℕ) → elem b blocks ≡ true → elem b all_blocks ≡ true)
      → (mark_blocks mark blocks found).1 ≡ found.1
  unfolding mark_blocks
  mark_blocks-none [] found h m = refl
  mark_blocks-none (b ∷ blocks) found h m =
      let e = h b (m b (ground arith)) in
      let r =
        mark_blocks-none blocks ((id_of b, b) ∷ found.0, found.1) h (λ c n. m c (ground arith)) in
      rw (mark_blocks, e) r

  mark_blocks-lookup :
      (blocks : List ℕ) (found : Map × Option ℕ) (b : ℕ)
      → HasMeta
      → HasDistinctIds
      → ((c : ℕ) → elem c blocks ≡ true → elem c all_blocks ≡ true)
      → elem b all_blocks ≡ true
      → (elem b blocks ≡ true) ⊎ (lookup found.0 (id_of b) ≡ some b)
      → lookup (mark_blocks mark blocks found).0 (id_of b) ≡ some b
  unfolding mark_blocks lookup
  mark_blocks-lookup [] found b h d m i (inl k) = absurd cc
  mark_blocks-lookup [] found b h d m i (inr k) = k
  mark_blocks-lookup (c ∷ blocks) found b h d m i k =
      let e = h c (m c (ground arith)) in
      let rest =
        mark_blocks-lookup blocks ((id_of c, c) ∷ found.0, found.1) b h d
          (λ x n. m x (ground arith)) i in
      rw (mark_blocks, e)
        (elim (Bool-cases (id_of c == id_of b)) [
          | inl t ↦
              let same : c ≡ b = d c b (m c (ground arith)) i (ground arith) in
              rest (inr (rw (lookup, t) (ap some same)))
          | inr t ↦ elim k [
            | inl n ↦ elim (Bool-cases (b == c)) [
              | inl s ↦
                  let q : b ≡ c = ground arith in
                  absurd (let x : id_of c ≡ id_of b = ap id_of (sym q) in ground arith)
              | inr s ↦ rest (inl (ground arith))
            ]
            | inr n ↦ rest (inr (rw (lookup, t) n))
          ]
        ])

  find_blocks_lem :
      (m : Map) (moved : List ℕ)
      → ((b : ℕ) → elem b moved ≡ true → lookup m (id_of b) ≡ some b)
      → find_blocks m (map id_of moved) ≡ some moved
  unfolding find_blocks
  find_blocks_lem m [] h = refl
  find_blocks_lem m (b ∷ moved) h =
      let e = h b (ground arith) in
      let r = find_blocks_lem m moved (λ c n. h c (ground arith)) in rw (find_blocks, e, r) refl

-- In a function of distinct blocks, if every block starts with its blk_meta, different blocks have different
-- ids, and the order names different blocks of the function by their ids, then no error is emitted, no null
-- pointer is dereferenced, and these blocks come first, in that order, and the other blocks follow in theirs,
-- the block that returns among them.
pub reorder_blocks_by_milp_order_lem :
    (mark : ℕ → Mark) (id_of : ℕ → ℕ) (blocks moved : List ℕ)
    → HasMeta mark id_of blocks
    → HasDistinctIds mark id_of blocks
    → IsNodup blocks
    → IsNodup moved
    → ((b : ℕ) → elem b moved ≡ true → elem b blocks ≡ true)
    → reorder_blocks_by_milp_order mark blocks (map id_of moved)
      ≡ some (moved ++ keep (λ b. not (elem b moved)) blocks)
unfolding reorder_blocks_by_milp_order move_return_block
reorder_blocks_by_milp_order_lem mark id_of blocks moved h d n k inside =
    let found = mark_blocks mark blocks ([], none) in
    let no_return = mark_blocks-none mark id_of blocks blocks ([], none) h (λ b m. m) in
    let e = find_blocks_lem mark id_of blocks found.0 moved (λ b m.
      mark_blocks-lookup mark id_of blocks blocks ([], none) b h d (λ c i. i) (inside b m)
        (inl (inside b m))) in
    let p = place_all_lem moved [] blocks k inside n (λ c m. refl) in rw (e, p, no_return) refl
