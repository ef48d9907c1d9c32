-- ===== src/Env/Preload.antt =====
-- The value of `LD_PRELOAD` in an augmented environment.
use libvoyeur.Common.{
  ℕ, suc, ◌+◌, ◌*◌, ◌≤◌, ◌<◌, ◌≡◌, inl, inr, refl, sym, ap, ◌∙◌, Bool, true, Option, none, some,
  List, [], ◌∷◌, ◌++◌, arith, length, set, if◌then◌else◌, take-all, Bool-cases, Option-cases,
  append-nil,
}
use libvoyeur.Text.{
  strlcpy, strlcat, strip_prefix, strip_prefix-append, starts_with, starts_with-strip_prefix,
  strip_prefix-eq-none, strnstr, occurs, occurs-front,
}
use libvoyeur.Env.{
  insert_libs, env_buf_size, env_entry, find_existing, place_entries, voyeur_entries, insert_entry,
  voyeur_augment_environment,
}
use libvoyeur.Env.Lookup.{getenv-append, getenv, ld_preload}
use mathlib.Core.Option.{or_else}
use libvoyeur.Env.Insert.{preload_value, value_length, insert_entry-none, insert_entry-some}

-- How many entries set `LD_PRELOAD`.
unfoldable pub preloads : List (List ℕ) → ℕ
preloads [] = 0
preloads (e ∷ envp) = (if starts_with insert_libs e then 1 else 0) + preloads envp

pub find_existing-none :
    (envp : List (List ℕ)) (i : ℕ) (found : Option (ℕ × List ℕ))
    → getenv envp ld_preload ≡ none
    → find_existing envp i found ≡ found
unfolding getenv find_existing or_else
find_existing-none [] i found e = refl
find_existing-none (x ∷ envp) i found e = elim (Option-cases (strip_prefix insert_libs x)) [
  | inl no_match ↦ rw no_match (find_existing-none envp (suc i) found (rw no_match at e))
  | inr (v, m) ↦ let clash : ◌≡◌ {A = Option (List ℕ)} (some v) none = rw m at e in cc
]

preloads-zero : (envp : List (List ℕ)) → preloads envp ≡ 0 → getenv envp ld_preload ≡ none
unfolding preloads getenv or_else
preloads-zero [] e = refl
preloads-zero (x ∷ envp) e = elim (Bool-cases (starts_with insert_libs x)) [
  | inl there ↦ ground (arith, there)
  | inr missing ↦ rw (strip_prefix-eq-none insert_libs x missing) (preloads-zero envp (omega arith))
]

one_entry : (b : Bool) (n : ℕ) → b ≡ true → (if b then 1 else 0) + n ≤ 1 → n ≡ 0
one_entry b n e h = ground arith

pub preloads_front : (b : Bool) (n : ℕ) → (if b then 1 else 0) + n ≤ 1 + n
preloads_front b n = ground arith

found_here :
    (i : ℕ) (u v : List ℕ)
    → some u ≡ some v
    → ◌≡◌ {A = Option (ℕ × List ℕ)} (some (i, u)) (some (i + 0, v))
found_here i u v e = ground arith

-- The entry that is found is replaced, and it is the one whose value getenv(3) gives.
pub getenv-set_found :
    (envp : List (List ℕ)) (i : ℕ) (v b : List ℕ)
    → getenv envp ld_preload ≡ some v
    → preloads envp ≤ 1
    → (k : ℕ) × (find_existing envp i none ≡ some (i + k, v))
      × (getenv (set envp k (insert_libs ++ b)) ld_preload ≡ some b)
      × (preloads (set envp k (insert_libs ++ b)) ≤ preloads envp)
unfolding getenv find_existing or_else preloads
getenv-set_found [] i v b e one = cc
getenv-set_found (x ∷ envp) i v b e one = elim (Option-cases (strip_prefix insert_libs x)) [
  | inl no_match ↦
      let (k, f, g, p) = getenv-set_found envp (suc i) v b (rw no_match at e) (omega arith) in
      let step : suc i + k ≡ i + suc k = omega arith in
      (suc k, rw no_match (f ∙ ap (λ n. some (n, v)) step), rw no_match g, omega arith)
  | inr (u, m) ↦
      let same : ◌≡◌ {A = Option (List ℕ)} (some u) (some v) = rw m at e in
      let first = starts_with-strip_prefix insert_libs x m in
      let alone : preloads envp ≡ 0 = one_entry (starts_with insert_libs x) _ first one in
      (
        0,
        rw m (
            find_existing-none envp (suc i) (some (i, u)) (preloads-zero envp alone)
            ∙ found_here i u v same),
        rw (strip_prefix-append insert_libs b) refl,
        rw first (preloads_front (starts_with insert_libs (insert_libs ++ b)) (preloads envp)),
      )
]

-- The three other new entries do not set `LD_PRELOAD`.
getenv-voyeur_entries :
    (libs opts sockpath : List ℕ) → getenv (voyeur_entries libs opts sockpath) ld_preload ≡ none
unfolding getenv voyeur_entries env_entry strlcat strlcpy strip_prefix or_else
getenv-voyeur_entries libs opts sockpath = refl

getenv-append_front :
    (xs ys : List (List ℕ)) (v : List ℕ)
    → getenv xs ld_preload ≡ some v
    → getenv (xs ++ ys) ld_preload ≡ some v
getenv-append_front xs ys v e = rw (getenv-append, e) (unfold or_else in refl)

pub strnstr_short :
    (big little : List ℕ) (len : ℕ) → length big ≤ len → strnstr big little len ≡ occurs big little
unfolding strnstr
strnstr_short big little len h = ap (λ l. occurs l little) (take-all len big h)

occurs-preload_value :
    (libs : List ℕ) (old : Option (List ℕ))
    → value_length old < env_buf_size * 2
    → occurs (preload_value libs old) libs ≡ true
unfolding preload_value
occurs-preload_value libs none h = rw append-nil at (occurs-front libs [])
occurs-preload_value libs (some existing) h =
    elim (Bool-cases (strnstr existing libs (env_buf_size * 2))) [
      | inl there ↦
          rw there (sym (strnstr_short existing libs (env_buf_size * 2) (omega arith)) ∙ there)
      | inr missing ↦ rw missing (occurs-front libs (b':' ∷ existing))
    ]

last_entry : (b : List ℕ) → getenv ((insert_libs ++ b) ∷ []) ld_preload ≡ some b
unfolding getenv or_else
last_entry b = rw (strip_prefix-append insert_libs b) refl

place_fresh :
    (envp entries : List (List ℕ)) (b : List ℕ)
    → getenv envp ld_preload ≡ none
    → getenv entries ld_preload ≡ none
    → getenv (envp ++ (entries ++ ((insert_libs ++ b) ∷ []))) ld_preload ≡ some b
place_fresh envp entries b e f =
    getenv-append envp (entries ++ ((insert_libs ++ b) ∷ [])) ld_preload
    ∙ rw (e, getenv-append, f, last_entry) (unfold or_else in refl)

place_entries-preload :
    (envp entries : List (List ℕ)) (libs : List ℕ) (old : Option (List ℕ))
    → getenv envp ld_preload ≡ old
    → preloads envp ≤ 1
    → length libs + value_length old + 12 < env_buf_size
    → getenv entries ld_preload ≡ none
    → getenv
        (place_entries envp
          (find_existing envp 0 none)
          (insert_entry libs (find_existing envp 0 none))
          entries)
        ld_preload
      ≡ some (preload_value libs old)
unfolding place_entries preload_value
place_entries-preload envp entries libs none e one room f =
    rw (find_existing-none envp 0 none e, insert_entry-none libs (omega arith))
      (place_fresh envp entries libs e f)
place_entries-preload envp entries libs (some v) e one room f =
    let (k, found, set_value, _) = getenv-set_found envp 0 v (preload_value libs (some v)) e one in
    let start : 0 + k ≡ k = omega arith in
    rw (found ∙ ap (λ n. some (n, v)) start, insert_entry-some libs v k (omega arith))
      (getenv-append_front _ entries _ set_value)

pub preloads-append : (xs ys : List (List ℕ)) → preloads (xs ++ ys) ≡ preloads xs + preloads ys
unfolding preloads
preloads-append [] ys = omega arith
preloads-append (x ∷ xs) ys = omega (arith, preloads-append xs ys)

pub preloads-voyeur_entries :
    (libs opts sockpath : List ℕ) → preloads (voyeur_entries libs opts sockpath) ≡ 0
unfolding preloads voyeur_entries env_entry strlcat strlcpy starts_with
preloads-voyeur_entries libs opts sockpath = refl

-- Where the environment sets `LD_PRELOAD` at most once, and the buffer has room for the key, the
-- libraries and the old value, the new environment sets it to the libraries in front of the old
-- value, or to the old value where the libraries are in it already; the libraries occur in it
-- either way.
pub preload-augment :
    (envp : List (List ℕ)) (libs opts sockpath : List ℕ)
    → preloads envp ≤ 1
    → length libs + value_length (getenv envp ld_preload) + 12 < env_buf_size
    → (getenv (voyeur_augment_environment envp libs opts sockpath) ld_preload
        ≡ some (preload_value libs (getenv envp ld_preload)))
      × (occurs (preload_value libs (getenv envp ld_preload)) libs ≡ true)
unfolding voyeur_augment_environment
preload-augment envp libs opts sockpath one room = (
  place_entries-preload envp (voyeur_entries libs opts sockpath) libs _ refl one room
      (getenv-voyeur_entries libs opts sockpath),
  occurs-preload_value libs (getenv envp ld_preload) (omega arith),
)
