-- ===== src/IQoala/Meta.antt =====
-- The meta section: lib/Target/iQoala/MC/iQoalaMCSections.cpp. A std::map is an association list, whose
-- `emplace` does nothing where the key is there.
pub mod Lookups
use Prim.Native.String.{String}
use text.Mathlib.Text.{◌==◌ as str_eq}
use qoala_mlir.Common.{ℕ, ◌%◌, ◌^◌, List, [], ◌∷◌, ◌++◌, Option, none, some, ◌>>=◌, if◌then◌else◌}

pub record MetaSection : Type 0 where
  pub name : String
  pub global_params : List String
  pub classical_sockets_map : List (String × ℕ)
  pub eprs_sockets_map : List (String × ℕ)
  pub remote_param_names : List (String × String)

unfoldable pub find {ℓ} : {A : Type ℓ} → String → List (String × A) → Option A
find k [] = none
find k ((j, v) ∷ m) = if str_eq j k then some v else find k m

unfoldable pub emplace {ℓ} : {A : Type ℓ} → String → A → List (String × A) → List (String × A)
unfolding find
emplace k v m = elim (find k m) [ none ↦ (k, v) ∷ m | some w ↦ m ]

unfoldable pub add_parameter : String → MetaSection → MetaSection
add_parameter param s = record s { global_params = s.global_params ++ param ∷ [] }

-- The name of a remote's parameter is what helpers::formatString makes of "%s_id".
unfoldable pub add_remote : (String → String) → String → MetaSection → MetaSection
unfolding add_parameter emplace
add_remote format_id remote_name s =
    let s' = add_parameter (format_id remote_name) s in
    record s' {
      remote_param_names = emplace remote_name (format_id remote_name) s'.remote_param_names;
    }

unfoldable pub add_classical_socket_for_remote : String → ℕ → MetaSection → MetaSection
unfolding emplace
add_classical_socket_for_remote remote_name socket_id s = record s {
  classical_sockets_map = emplace remote_name socket_id s.classical_sockets_map;
}

unfoldable pub add_eprs_socket_for_remote : String → ℕ → MetaSection → MetaSection
unfolding emplace
add_eprs_socket_for_remote remote_name socket_id s = record s {
  eprs_sockets_map = emplace remote_name socket_id s.eprs_sockets_map;
}

unfoldable pub get_classical_socket_for_remote : String → MetaSection → Option ℕ
unfolding find
get_classical_socket_for_remote remote_name s =
    find remote_name s.classical_sockets_map >>= λ id. some (id % 2 ^ 8)

unfoldable pub get_eprs_socket_for_remote : String → MetaSection → Option ℕ
unfolding find
get_eprs_socket_for_remote remote_name s =
    find remote_name s.eprs_sockets_map >>= λ id. some (id % 2 ^ 8)

-- std::map::at: a missing name throws.
unfoldable pub get_param_name_for_remote : String → MetaSection → Option String
unfolding find
get_param_name_for_remote remote_name s = find remote_name s.remote_param_names

unfoldable pub set_name : String → MetaSection → MetaSection
set_name program_name s = record s { name = program_name }
