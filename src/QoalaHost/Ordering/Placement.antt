-- ===== src/QoalaHost/Ordering/Placement.antt =====
-- Moving blocks one after the other puts them at the front, in the order of the moves.
use qoala_mlir.Common.{
  ℕ, ◌≡◌, refl, sym, ap, ◌∙◌, inl, inr, Bool, true, false, not, ◌&&◌, List, [], ◌∷◌, ◌++◌, some,
  ◌==◌, elem, keep, IsNodup, IsNodup-keep, append_assoc, arith, Bool-cases, keep-keep, keep-cong,
  elem-append,
}
use qoala_mlir.QoalaHost.Ordering.{
  front, get_next_node, remove, insert_before, move_before, place_all,
}

pub remove-absent : (b : ℕ) (xs : List ℕ) → elem b xs ≡ false → remove b xs ≡ xs
remove-absent b [] h = refl
remove-absent b (x ∷ xs) h =
    let n : (x == b) ≡ false = ground arith in
    let m : elem b xs ≡ false = ground arith in rw n (ap (λ t. x ∷ t) (remove-absent b xs m))

pub insert-front :
    (b c : ℕ) (done xs : List ℕ)
    → elem c done ≡ false
    → insert_before b c (done ++ c ∷ xs) ≡ done ++ b ∷ c ∷ xs
unfolding insert_before
insert-front b c [] xs h = let e : (c == c) ≡ true = ground arith in rw e refl
insert-front b c (d ∷ done) xs h =
    let n : (d == c) ≡ false = ground arith in
    let m : elem c done ≡ false = ground arith in
    rw n (ap (λ t. d ∷ t) (insert-front b c done xs m))

pub next-behind :
    (b : ℕ) (done xs : List ℕ) → elem b done ≡ false → get_next_node b (done ++ b ∷ xs) ≡ front xs
unfolding get_next_node
next-behind b [] xs h = let e : (b == b) ≡ true = ground arith in rw e refl
next-behind b (d ∷ done) xs h =
    let n : (d == b) ≡ false = ground arith in
    let m : elem b done ≡ false = ground arith in rw n (next-behind b done xs m)

pub keep-append : (p : ℕ → Bool) (xs ys : List ℕ) → keep p (xs ++ ys) ≡ keep p xs ++ keep p ys
keep-append p [] ys = refl
keep-append p (x ∷ xs) ys = elim (Bool-cases (p x)) [
  | inl e ↦ rw e (ap (λ t. x ∷ t) (keep-append p xs ys))
  | inr e ↦ rw e (keep-append p xs ys)
]

-- A block of the rest is moved behind those that were placed. The rest has a first block.
move_step :
    (b c : ℕ) (done rest : List ℕ)
    → elem b done ≡ false
    → elem b (c ∷ rest) ≡ true
    → IsNodup (c ∷ rest)
    → ((d : ℕ) → elem d (c ∷ rest) ≡ true → elem d done ≡ false)
    → move_before b c (done ++ c ∷ rest) ≡ done ++ b ∷ remove b (c ∷ rest)
unfolding move_before
move_step b c done rest n m (k, d) apart = elim (Bool-cases (b == c)) [
  | inl e ↦
      let f : b ≡ c = ground arith in
      let g : (c == b) ≡ true = ground arith in
      let a = remove-absent b rest (rw f k) in rw (e, g, a, f) refl
  | inr e ↦
      let g : (c == b) ≡ false = ground arith in
      let p = remove-absent b done n in
      let q = keep-append (λ x. not (x == b)) done (c ∷ rest) in
      rw (e, q, g, p) (insert-front b c done (remove b rest) (apart c (ground arith)))
]

elem-remove : (b c : ℕ) (xs : List ℕ) → elem c (remove b xs) ≡ (elem c xs && not (c == b))
elem-remove b c [] = refl
elem-remove b c (x ∷ xs) = ground (arith, elem-remove b c xs)

keep-all : (p : ℕ → Bool) (xs : List ℕ) → ((x : ℕ) → p x ≡ true) → keep p xs ≡ xs
keep-all p [] h = refl
keep-all p (x ∷ xs) h = let e = h x in rw e (ap (λ t. x ∷ t) (keep-all p xs h))

not-either :
    (b x : ℕ) (moved : List ℕ) → (not (x == b) && not (elem x moved)) ≡ not (elem x (b ∷ moved))
not-either b x moved = ground arith

-- All blocks are moved behind those that were placed, in their order, and the others stay as they are.
pub place_all_lem :
    (moved done rest : List ℕ)
    → IsNodup moved
    → ((b : ℕ) → elem b moved ≡ true → elem b rest ≡ true)
    → IsNodup rest
    → ((c : ℕ) → elem c rest ≡ true → elem c done ≡ false)
    → place_all (front rest) moved (done ++ rest)
      ≡ some (done ++ (moved ++ keep (λ x. not (elem x moved)) rest))
unfolding place_all
place_all_lem [] done rest d m n apart =
    ap (λ t. some (done ++ t)) (sym (keep-all (λ x. true) rest (λ x. refl)))
place_all_lem (b ∷ moved) done [] (k, d) m n apart = absurd (let i = m b (ground arith) in cc)
place_all_lem (b ∷ moved) done (head ∷ tail) (k, d) m n apart =
    let rest = head ∷ tail in
    let i = m b (ground arith) in
    let out = apart b i in
    let step = move_step b head done tail out i n apart in
    let next = next-behind b done (remove b rest) out in
    let shift = append_assoc done (b ∷ []) (remove b rest) in
    let rest' = remove b rest in
    let ih =
      place_all_lem moved (done ++ b ∷ []) rest' d
        (λ c h.
          rw (elem-remove b c rest)
            (let p = m c (ground arith) in let q = differs b c moved k h in ground arith))
        (IsNodup-keep (λ c. not (c == b)) rest n)
        (λ c h.
          let p = rw (elem-remove b c rest) at h in
          rw (elem-append c done (b ∷ [])) (let q = apart c (ground arith) in ground arith)) in
    let join = keep-keep (λ x. not (elem x moved)) (λ x. not (x == b)) rest in
    let same =
      keep-cong (λ x. not (x == b) && not (elem x moved)) (λ x. not (elem x (b ∷ moved))) rest
        (λ x. not-either b x moved) in
    rw (step, next, sym shift)
      (ih
        ∙ ap some (append_assoc done (b ∷ []) (moved ++ keep (λ x. not (elem x moved)) rest'))
        ∙ ap (λ t. some (done ++ b ∷ (moved ++ t))) (join ∙ same))
  where
    differs :
        (b c : ℕ) (moved : List ℕ) → elem b moved ≡ false → elem c moved ≡ true → (c == b) ≡ false
    differs b c moved k h = elim (Bool-cases (c == b)) [
      | inl e ↦
          let f : c ≡ b = ground arith in
          absurd (let g = rw f at h in let x : true ≡ false = sym g ∙ k in cc)
      | inr e ↦ e
    ]
