-- ===== src/Common/Search/Reach.antt =====
-- What the search sees is what the worklist reaches.
use qoala_mlir.Common.{
  ℕ, zero, suc, ◌+◌, ◌≤◌, length, ◌≡◌, refl, sym, ◌∙◌, ◌↔◌, ◌⊎◌, inl, inr, Bool, true, false, List,
  [], ◌∷◌, some, elem, In, elem→In, In→elem, Bool-cases, arith,
}
use qoala_mlir.Common.Search.{push_all, depth_first}
use qoala_mlir.Common.Search.Fuel.{pending, rounds-drop, rounds-visit}

-- Reached from the roots by steps out of nodes that were not seen at the start.
pub data Reaches (next : ℕ → List ℕ) (stop roots : List ℕ) : ℕ → Type 0 where
  root : {v : ℕ} → In v roots → Reaches next stop roots v
  step :
      {v w : ℕ}
      → Reaches next stop roots v
      → ¬ In v stop
      → In w (next v)
      → Reaches next stop roots w

pub In-push_all :
    (v : ℕ) (xs worklist : List ℕ) → In v (push_all xs worklist) → In v xs ⊎ In v worklist
unfolding push_all
In-push_all v [] worklist m = inr m
In-push_all v (x ∷ xs) worklist m = elim (In-push_all v xs (x ∷ worklist) m) [
  | inl i ↦ inl (inr i)
  | inr (inl e) ↦ inl (inl e)
  | inr (inr i) ↦ inr i
]

pub push_all-In :
    (v : ℕ) (xs worklist : List ℕ) → In v xs ⊎ In v worklist → In v (push_all xs worklist)
unfolding push_all
push_all-In v [] worklist (inl m) = absurd m
push_all-In v [] worklist (inr m) = m
push_all-In v (x ∷ xs) worklist (inl (inl e)) = push_all-In v xs (x ∷ worklist) (inr (inl e))
push_all-In v (x ∷ xs) worklist (inl (inr m)) = push_all-In v xs (x ∷ worklist) (inl m)
push_all-In v (x ∷ xs) worklist (inr m) = push_all-In v xs (x ∷ worklist) (inr (inr m))

module _ (hit : ℕ → Bool) (next : ℕ → List ℕ) (stop roots : List ℕ) where
  -- What holds before each round: nothing is seen or pushed that is not reached, and every seen node
  -- that was not seen at the start is no hit and has its successors seen or pushed.
  pub record Invariant (worklist seen : List ℕ) : Type 0 where
    pub pushed : (v : ℕ) → In v worklist → Reaches next stop roots v
    pub reached : (v : ℕ) → In v seen → In v stop ⊎ Reaches next stop roots v
    pub stopped : (v : ℕ) → In v stop → In v seen
    pub rooted : (v : ℕ) → In v roots → In v seen ⊎ In v worklist
    pub closed : (v w : ℕ) → In v seen → ¬ In v stop → In w (next v) → In w seen ⊎ In w worklist
    pub missed : (v : ℕ) → In v seen → ¬ In v stop → hit v ≡ false

  pub start_lem : Invariant roots stop
  start_lem = record {
    pushed = λ v m. root m;
    reached = λ v m. inl m;
    stopped = λ v m. m;
    rooted = λ v m. inr m;
    closed = λ v w m n i. absurd (n m);
    missed = λ v m n. absurd (n m);
  }

  -- A node that was seen is dropped.
  drop_lem :
      (v : ℕ) (worklist seen : List ℕ)
      → Invariant (v ∷ worklist) seen
      → In v seen
      → Invariant worklist seen
  drop_lem v worklist seen i m = record {
    pushed = λ w p. i.pushed w (inr p);
    reached = i.reached;
    stopped = i.stopped;
    rooted = λ w p. drop w (i.rooted w p);
    closed = λ w u p n q. drop u (i.closed w u p n q);
    missed = i.missed;
  }
    where
      drop : (w : ℕ) → In w seen ⊎ In w (v ∷ worklist) → In w seen ⊎ In w worklist
      drop w (inl p) = inl p
      drop w (inr (inl e)) = inl (rw e m)
      drop w (inr (inr p)) = inr p

  -- A new node that is no hit is seen, and its successors are pushed.
  visit_lem :
      (v : ℕ) (worklist seen : List ℕ)
      → Invariant (v ∷ worklist) seen
      → ¬ In v seen
      → hit v ≡ false
      → Invariant (push_all (next v) worklist) (v ∷ seen)
  visit_lem v worklist seen i n h = record {
    pushed = λ w p. elim (In-push_all w (next v) worklist p) [
      | inl q ↦ step (i.pushed v (inl refl)) (λ s. n (i.stopped v s)) q
      | inr q ↦ i.pushed w (inr q)
    ];
    reached = λ w p. elim p [ inl e ↦ inr (rw e (i.pushed v (inl refl))) | inr q ↦ i.reached w q ];
    stopped = λ w p. inr (i.stopped w p);
    rooted = λ w p. move w (i.rooted w p);
    closed = λ w u p s q. elim p [
      | inl e ↦ inr (push_all-In u (next v) worklist (inl (rw e at q)))
      | inr m ↦ move u (i.closed w u m s q)
    ];
    missed = λ w p s. elim p [ inl e ↦ rw e h | inr m ↦ i.missed w m s ];
  }
    where
      move :
          (w : ℕ)
          → In w seen ⊎ In w (v ∷ worklist)
          → In w (v ∷ seen) ⊎ In w (push_all (next v) worklist)
      move w (inl p) = inl (inr p)
      move w (inr (inl e)) = inl (inl e)
      move w (inr (inr p)) = inr (push_all-In w (next v) worklist (inr p))

  -- What a search that ended says.
  abbrev pub Found : Bool → List ℕ → Type 0
  Found true seen = (v : ℕ) × Reaches next stop roots v × (hit v ≡ true)
  Found false seen =
      ((v : ℕ) → In v seen ↔ (In v stop ⊎ Reaches next stop roots v))
      × ((v : ℕ) → Reaches next stop roots v → ¬ In v stop → hit v ≡ false)

  finish_lem : (seen : List ℕ) → Invariant [] seen → Found false seen
  finish_lem seen i = (λ v. (i.reached v, back v), λ v r n. i.missed v (back v (inr r)) n)
    where
      back : (v : ℕ) → In v stop ⊎ Reaches next stop roots v → In v seen
      back v (inl m) = i.stopped v m
      back v (inr (root m)) = elim (i.rooted v m) [ inl p ↦ p | inr p ↦ absurd p ]
      back v (inr (step {v = u} r n m)) = elim (i.closed u v (back u (inr r)) n m) [
        | inl p ↦ p
        | inr p ↦ absurd p
      ]

  -- If the nodes that have successors are among `nodes`, then as many rounds as there are pushes end the
  -- search, and it tells what the worklist reaches.
  search_lem :
      (nodes : List ℕ)
      → ((v : ℕ) → elem v nodes ≡ false → length (next v) ≡ 0)
      → (fuel : ℕ) (worklist seen : List ℕ) → length worklist + pending next nodes seen ≤ fuel
      → Invariant worklist seen
      → (found : Bool) × (seen' : List ℕ) × (depth_first hit next fuel worklist seen
          ≡ some (found, seen'))
        × Found found seen'
  unfolding depth_first
  search_lem nodes h fuel [] seen l i = (false, seen, refl, finish_lem seen i)
  search_lem nodes h zero (v ∷ worklist) seen l i = absurd (omega arith)
  search_lem nodes h (suc fuel) (v ∷ worklist) seen l i = elim (Bool-cases (elem v seen)) [
    | inl m ↦
        let (found, seen', e, f) =
          search_lem nodes h fuel worklist seen (rounds-drop next nodes v worklist seen fuel l)
            (drop_lem v worklist seen i (elem→In v seen m)) in
        (found, seen', rw (m, depth_first) e, f)
    | inr m ↦ elim (Bool-cases (hit v)) [
      | inl t ↦ (true, v ∷ seen, rw (m, t, depth_first) refl, (v, i.pushed v (inl refl), t))
      | inr t ↦
          let (found, seen', e, f) =
            search_lem nodes h fuel (push_all (next v) worklist) (v ∷ seen)
              (rounds-visit next nodes v worklist seen fuel (h v) m l)
              (visit_lem v worklist seen i
                (λ p. absurd (let c = In→elem v seen p in let d : true ≡ false = sym c ∙ m in cc))
                t) in
          (found, seen', rw (m, t, depth_first) e, f)
    ]
  ]

  pub depth_first_lem :
      (nodes : List ℕ)
      → ((v : ℕ) → elem v nodes ≡ false → length (next v) ≡ 0)
      → (fuel : ℕ) → length roots + pending next nodes stop ≤ fuel
      → (found : Bool) × (seen' : List ℕ) × (depth_first hit next fuel roots stop
          ≡ some (found, seen'))
        × Found found seen'
  depth_first_lem nodes h fuel l = search_lem nodes h fuel roots stop l start_lem
