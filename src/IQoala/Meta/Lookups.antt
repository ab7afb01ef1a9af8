-- ===== src/IQoala/Meta/Lookups.antt =====
-- The sockets of the meta section are those that were added first.
use Prim.Native.String.{String}
use text.Mathlib.Text.{◌==◌ as str_eq}
use text.Mathlib.TextEquality.{eq_iff}
use qoala_mlir.Common.{
  ℕ, ◌<◌, ◌%◌, ◌^◌, ◌≡◌, ◌≢◌, refl, ap, ◌∙◌, true, List, none, some, ◌>>=◌, arith, inl, inr,
  Option-cases, Bool-cases,
}
use qoala_mlir.IQoala.Meta.{
  MetaSection, find, emplace, add_classical_socket_for_remote, get_classical_socket_for_remote,
}

find-emplace_self {ℓ} :
    {A : Type ℓ} (k : String) (v : A) (m : List (String × A))
    → find k (emplace k v m) ≡ elim (find k m) [ none ↦ some v | some w ↦ some w ]
unfolding emplace find
find-emplace_self k v m = elim (Option-cases (find k m)) [
  | inl e ↦ let t : str_eq k k ≡ true = (eq_iff k k).1 refl in rw (e, emplace, e, t) refl
  | inr (w, e) ↦ rw (e, emplace, e) refl
]

find-emplace_other {ℓ} :
    {A : Type ℓ} (k j : String) (v : A) (m : List (String × A))
    → k ≢ j
    → find j (emplace k v m) ≡ find j m
unfolding emplace find
find-emplace_other k j v m n = elim (Option-cases (find k m)) [
  | inl e ↦ elim (Bool-cases (str_eq k j)) [
    | inl t ↦ absurd (n ((eq_iff k j).0 t))
    | inr t ↦ rw (e, emplace, t) refl
  ]
  | inr (w, e) ↦ rw (e, emplace) refl
]

-- After a classical socket with an 8-bit number is added for a remote, the remote's socket is the one it
-- had before, or else the new one; every other remote's socket is as before.
pub get_classical_socket_for_remote-add_classical_socket_for_remote :
    (remote other : String) (id : ℕ) (s : MetaSection)
    → id < 256
    → remote ≢ other
    → (get_classical_socket_for_remote remote (add_classical_socket_for_remote remote id s)
        ≡ elim (get_classical_socket_for_remote remote s) [ none ↦ some id | some old ↦ some old ])
      × (get_classical_socket_for_remote other (add_classical_socket_for_remote remote id s)
          ≡ get_classical_socket_for_remote other s)
unfolding add_classical_socket_for_remote get_classical_socket_for_remote
get_classical_socket_for_remote-add_classical_socket_for_remote remote other id s l n =
    let m = s.classical_sockets_map in
    let own = find-emplace_self remote id m in
    (
      elim (Option-cases (find remote m)) [
        | inl e ↦
            let p : find remote (emplace remote id m) ≡ some id = own ∙ rw e refl in
            rw (get_classical_socket_for_remote, p, e) (ap some (omega arith))
        | inr (w, e) ↦
            let p : find remote (emplace remote id m) ≡ some w = own ∙ rw e refl in
            rw (get_classical_socket_for_remote, p, e) refl
      ],
      ap (λ o. o >>= λ k. some (k % 2 ^ 8)) (find-emplace_other remote other id m n),
    )
