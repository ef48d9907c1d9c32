-- ===== src/Env.antt =====
-- env.c: `voyeur_augment_environment`, on Linux. An environment is the list of its entries before the
-- terminating null pointer.
pub mod Lookup
pub mod Insert
pub mod Preload
pub mod Generations
use libvoyeur.Common.{
  ℕ, zero, suc, ◌+◌, ◌*◌, Bool, true, false, ◌&&◌, not, Option, none, some, List, [], ◌∷◌, ◌++◌,
  length, set, ltb, if◌then◌else◌,
}
use libvoyeur.Text.{codes, strlcpy, strlcat, strip_prefix, strnstr}

abbrev pub insert_libs : List ℕ
insert_libs = codes "LD_PRELOAD="

abbrev pub libs_key : List ℕ
libs_key = codes "LIBVOYEUR_LIBS="

abbrev pub opts_key : List ℕ
opts_key = codes "LIBVOYEUR_OPTS="

abbrev pub socket_key : List ℕ
socket_key = codes "LIBVOYEUR_SOCKET="

-- `sizeof(env_buf)`
abbrev pub env_buf_size : ℕ
env_buf_size = 2048

-- The loop over `envp` from the index `i` on: `found` is `existing_insert_idx` with
-- `existing_insert`, and a later entry replaces an earlier one.
unfoldable pub find_existing : List (List ℕ) → ℕ → Option (ℕ × List ℕ) → Option (ℕ × List ℕ)
find_existing [] i found = found
find_existing (e ∷ envp) i found =
    find_existing envp (suc i)
      (elim (strip_prefix insert_libs e) [ none ↦ found | some value ↦ some (i, value) ])

-- `must_add_voyeur_libs`: not where the libraries are there already, nor where there is no room.
unfoldable pub must_add_voyeur_libs : List ℕ → Option (ℕ × List ℕ) → Bool
must_add_voyeur_libs libs none = not (ltb env_buf_size (length libs + 0))
must_add_voyeur_libs libs (some (i, existing)) =
    not (strnstr existing libs (env_buf_size * 2))
    && not (ltb env_buf_size (length libs + length existing))

-- `strlcpy` of the key into an empty buffer, and `strlcat` of the value.
unfoldable pub env_entry : List ℕ → List ℕ → List ℕ
env_entry key value = strlcat env_buf_size (strlcpy env_buf_size key) value

-- `buf[3]`
unfoldable pub insert_entry : List ℕ → Option (ℕ × List ℕ) → List ℕ
unfolding must_add_voyeur_libs env_entry
insert_entry libs none =
    if must_add_voyeur_libs libs none
    then env_entry insert_libs libs
    else strlcpy env_buf_size insert_libs
insert_entry libs (some (i, existing)) =
    if must_add_voyeur_libs libs (some (i, existing))
    then strlcat env_buf_size (strlcat env_buf_size (env_entry insert_libs libs) (codes ":"))
        existing
    else env_entry insert_libs existing

-- `buf[0]`, `buf[1]` and `buf[2]`
unfoldable pub voyeur_entries : List ℕ → List ℕ → List ℕ → List (List ℕ)
voyeur_entries libs opts sockpath =
    env_entry libs_key libs ∷ env_entry opts_key opts ∷ env_entry socket_key sockpath ∷ []

-- The new array: the old entries with the found one replaced, and the new ones behind them.
unfoldable pub place_entries :
    List (List ℕ) → Option (ℕ × List ℕ) → List ℕ → List (List ℕ) → List (List ℕ)
place_entries envp none insert entries = envp ++ (entries ++ (insert ∷ []))
place_entries envp (some (i, existing)) insert entries = set envp i insert ++ entries

unfoldable pub voyeur_augment_environment : List (List ℕ) → List ℕ → List ℕ → List ℕ → List (List ℕ)
unfolding find_existing insert_entry voyeur_entries place_entries
voyeur_augment_environment envp libs opts sockpath =
    let found = find_existing envp 0 none in
    place_entries envp found (insert_entry libs found) (voyeur_entries libs opts sockpath)
