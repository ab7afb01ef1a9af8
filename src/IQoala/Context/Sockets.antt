-- ===== src/IQoala/Context/Sockets.antt =====
-- Sockets: one number for each remote, and different numbers for different remotes.
use Prim.Native.String.{String}
use text.Mathlib.Text.{◌==◌ as str_eq}
use text.Mathlib.TextEquality.{eq_iff}
use native.Mathlib.Nat.{zero-add}
use qoala_mlir.Common.{
  ℕ, suc, ◌+◌, ◌≤◌, ◌<◌, ◌≡◌, ◌≢◌, refl, ap, ◌∙◌, List, [], ◌∷◌, ◌++◌, none, some, if◌then◌else◌,
  arith, inl, inr, Bool-cases, Option-cases, length, length-append,
}
use qoala_mlir.IQoala.Context.{lookup_socket, allocate_socket}

-- The values count up from k.
abbrev NumberedFrom : ℕ → List (String × ℕ) → Type 0
NumberedFrom k [] = Unit {0}
NumberedFrom k ((name, v) ∷ t) = (v ≡ k) × NumberedFrom (suc k) t

-- A socket map as the translation builds it: request after request, from the empty map.
abbrev pub sockets_after : List String → List (String × ℕ) → List (String × ℕ)
sockets_after [] s = s
sockets_after (name ∷ names) s = sockets_after names (allocate_socket name s).1

NumberedFrom-append :
    (k : ℕ) (s : List (String × ℕ)) (name : String)
    → NumberedFrom k s
    → NumberedFrom k (s ++ (name, k + length s) ∷ [])
NumberedFrom-append k [] name h = (omega arith, tt)
NumberedFrom-append k ((n, v) ∷ s) name (e, h) =
    let p : k + suc (length s) ≡ suc k + length s = omega arith in
    (e, rw p (NumberedFrom-append (suc k) s name h))

lookup_socket_bounds :
    (k : ℕ) (s : List (String × ℕ)) (a : String) (i : ℕ)
    → NumberedFrom k s
    → lookup_socket a s ≡ some i
    → (k ≤ i) × (i < k + length s)
unfolding lookup_socket
lookup_socket_bounds k [] a i h e = absurd cc
lookup_socket_bounds k ((n, v) ∷ s) a i (q, h) e = elim (Bool-cases (str_eq n a)) [
  | inl t ↦ let p : v ≡ i = ground arith in (omega arith, omega arith)
  | inr t ↦ let b = lookup_socket_bounds (suc k) s a i h (rw t at e) in (omega arith, omega arith)
]

lookup_socket-injective :
    (k : ℕ) (s : List (String × ℕ)) (a b : String) (i : ℕ)
    → NumberedFrom k s
    → lookup_socket a s ≡ some i
    → lookup_socket b s ≡ some i
    → a ≡ b
unfolding lookup_socket
lookup_socket-injective k [] a b i h p q = absurd cc
lookup_socket-injective k ((n, v) ∷ s) a b i (e, h) p q = ground (
  arith,
  eq_iff n a,
  eq_iff n b,
  lookup_socket_bounds (suc k) s a i h,
  lookup_socket_bounds (suc k) s b i h,
  lookup_socket-injective (suc k) s a b i h,
)

allocate_socket-NumberedFrom :
    (name : String) (s : List (String × ℕ))
    → NumberedFrom 0 s
    → NumberedFrom 0 (allocate_socket name s).1
unfolding allocate_socket
allocate_socket-NumberedFrom name s h = elim (Option-cases (lookup_socket name s)) [
  | inl e ↦ rw (e, allocate_socket) (rw zero-add at (NumberedFrom-append 0 s name h))
  | inr (i, e) ↦ rw (e, allocate_socket) h
]

sockets_after-NumberedFrom :
    (names : List String) (s : List (String × ℕ))
    → NumberedFrom 0 s
    → NumberedFrom 0 (sockets_after names s)
sockets_after-NumberedFrom [] s h = h
sockets_after-NumberedFrom (name ∷ names) s h =
    sockets_after-NumberedFrom names _ (allocate_socket-NumberedFrom name s h)

lookup_socket-append :
    (a : String) (s : List (String × ℕ)) (b : String) (i : ℕ)
    → lookup_socket a (s ++ (b, i) ∷ [])
      ≡ elim (lookup_socket a s) [ some k ↦ some k | none ↦ if str_eq b a then some i else none ]
unfolding lookup_socket
lookup_socket-append a [] b i = refl
lookup_socket-append a ((n, v) ∷ s) b i = ground (arith, lookup_socket-append a s b i)

-- After a call for a remote its number is the one that was returned.
lookup_socket-allocate_self :
    (a : String) (s : List (String × ℕ))
    → NumberedFrom 0 s
    → length s < 256
    → lookup_socket a (allocate_socket a s).1 ≡ some (allocate_socket a s).0
unfolding allocate_socket
lookup_socket-allocate_self a s h l = elim (Option-cases (lookup_socket a s)) [
  | inl e ↦
      rw (e, allocate_socket)
        (lookup_socket-append a s a (length s) ∙ rw e (ground (arith, eq_iff a a)))
  | inr (i, e) ↦
      let b = lookup_socket_bounds 0 s a i h e in
      rw (e, allocate_socket) (e ∙ ap some (omega arith))
]

-- A later call leaves it alone.
lookup_socket-allocate_other :
    (a b : String) (s : List (String × ℕ)) (i : ℕ)
    → lookup_socket a s ≡ some i
    → lookup_socket a (allocate_socket b s).1 ≡ some i
unfolding allocate_socket
lookup_socket-allocate_other a b s i p = elim (Option-cases (lookup_socket b s)) [
  | inl e ↦ rw (e, allocate_socket) (lookup_socket-append a s b (length s) ∙ rw p refl)
  | inr (j, e) ↦ rw (e, allocate_socket) p
]

allocate_socket-known :
    (a : String) (s : List (String × ℕ)) (i : ℕ)
    → lookup_socket a s ≡ some i
    → i < 256
    → allocate_socket a s ≡ (i, s)
unfolding allocate_socket
allocate_socket-known a s i p l = rw (p, allocate_socket) (ap (λ (t : ℕ). (t, s)) (omega arith))

length-allocate_socket :
    (a : String) (s : List (String × ℕ)) → length (allocate_socket a s).1 ≤ length s + 1
unfolding allocate_socket
length-allocate_socket a s = elim (Option-cases (lookup_socket a s)) [
  | inl e ↦ rw (e, allocate_socket) (omega (arith, length-append s ((a, length s) ∷ [])))
  | inr (i, e) ↦ rw (e, allocate_socket) (omega arith)
]

-- Whatever remotes were asked for before: while fewer than 255 sockets exist, two different remotes
-- get different numbers, and asking again for the first one returns its number and adds no socket.
pub allocate_socket-injective :
    (names : List String) (a b : String)
    → length (sockets_after names []) < 255
    → a ≢ b
    → let s0 = sockets_after names [] in
      let s1 = (allocate_socket a s0).1 in
      let s2 = (allocate_socket b s1).1 in
      ((allocate_socket a s0).0 ≢ (allocate_socket b s1).0)
      × (allocate_socket a s2 ≡ ((allocate_socket a s0).0, s2))
allocate_socket-injective names a b l n =
    let s0 = sockets_after names [] in
    let s1 = (allocate_socket a s0).1 in
    let s2 = (allocate_socket b s1).1 in
    let h0 = sockets_after-NumberedFrom names [] tt in
    let h1 = allocate_socket-NumberedFrom a s0 h0 in
    let h2 = allocate_socket-NumberedFrom b s1 h1 in
    let p = lookup_socket-allocate_self a s0 h0 (omega arith) in
    let p2 = lookup_socket-allocate_other a b s1 _ p in
    let q = lookup_socket-allocate_self b s1 h1 (omega (arith, length-allocate_socket a s0)) in
    (
      λ e. n (lookup_socket-injective 0 s2 a b _ h2 (rw e at p2) q),
      allocate_socket-known a s2 _ p2
          (omega (arith, lookup_socket_bounds 0 s1 a _ h1 p, length-allocate_socket a s0)),
    )
