-- ===== src/Env/Generations.antt =====
-- What a program finds that was started by programs that were themselves started in an augmented
-- environment.
use libvoyeur.Common.{
  ℕ, zero, suc, ◌+◌, ◌*◌, ◌≤◌, ◌<◌, ◌≡◌, inl, inr, refl, ap, ◌∙◌, Bool, true, false, Option, none,
  some, List, [], ◌∷◌, ◌++◌, arith, length, set, ◌==◌, length-append, Bool-cases, Option-cases,
}
use libvoyeur.Text.{strip_prefix, starts_with, strnstr, occurs}
use libvoyeur.Env.{
  insert_libs, env_buf_size, find_existing, place_entries, voyeur_entries, insert_entry,
  voyeur_augment_environment,
}
use libvoyeur.Env.Lookup.{getenv, ld_preload}
use libvoyeur.Env.Insert.{preload_value, value_length, insert_entry-none, insert_entry-some}
use libvoyeur.Env.Preload.{
  preloads, preloads_front, preloads-append, preloads-voyeur_entries, find_existing-none,
  getenv-set_found, strnstr_short,
}
use mathlib.Core.Option.{or_else}

strip_prefix-starts_with :
    (p s : List ℕ) → starts_with p s ≡ true → (v : List ℕ) × (strip_prefix p s ≡ some v)
unfolding starts_with strip_prefix
strip_prefix-starts_with [] s e = (s, refl)
strip_prefix-starts_with (c ∷ p) [] e = cc
strip_prefix-starts_with (c ∷ p) (d ∷ s) e = elim (Bool-cases (c == d)) [
  | inl same ↦ let (v, m) = strip_prefix-starts_with p s (rw same at e) in (v, rw same m)
  | inr other ↦ let clash : ◌≡◌ {A = Bool} false true = rw other at e in cc
]

preloads-unset : (envp : List (List ℕ)) → getenv envp ld_preload ≡ none → preloads envp ≡ 0
unfolding preloads getenv or_else
preloads-unset [] e = refl
preloads-unset (x ∷ envp) e = elim (Bool-cases (starts_with insert_libs x)) [
  | inl there ↦
      let (v, m) = strip_prefix-starts_with insert_libs x there in
      let clash : ◌≡◌ {A = Option (List ℕ)} (some v) none = rw m at e in cc
  | inr missing ↦ elim (Option-cases (strip_prefix insert_libs x)) [
    | inl no_match ↦
        let rest = preloads-unset envp (rw no_match at e) in rw missing (omega (arith, rest))
    | inr (v, m) ↦ let clash : ◌≡◌ {A = Option (List ℕ)} (some v) none = rw m at e in cc
  ]
]

length-set : {A : Type 0} (xs : List A) (i : ℕ) (v : A) → length (set xs i v) ≡ length xs
length-set [] i v = refl
length-set (x ∷ xs) zero v = refl
length-set (x ∷ xs) (suc i) v = ap suc (length-set xs i v)

-- How many entries are added, beside those that are given.
abbrev pub new_preload : Option (List ℕ) → ℕ
new_preload none = 1
new_preload (some v) = 0

place_entries-preloads :
    (envp entries : List (List ℕ)) (libs : List ℕ) (old : Option (List ℕ))
    → getenv envp ld_preload ≡ old
    → preloads envp ≤ 1
    → length libs + value_length old + 12 < env_buf_size
    → preloads entries ≡ 0
    → (preloads (
          place_entries envp
            (find_existing envp 0 none)
            (insert_entry libs (find_existing envp 0 none))
            entries)
        ≤ 1)
      × (length (
            place_entries envp
              (find_existing envp 0 none)
              (insert_entry libs (find_existing envp 0 none))
              entries)
          ≡ length envp + (length entries + new_preload old))
unfolding place_entries preloads
place_entries-preloads envp entries libs none e one room f =
    let last : List (List ℕ) = (insert_libs ++ libs) ∷ [] in
    rw (find_existing-none envp 0 none e, insert_entry-none libs (omega arith))
      (
        omega (
          arith,
          preloads-unset envp e,
          preloads-append envp (entries ++ last),
          preloads-append entries last,
          preloads_front (starts_with insert_libs (insert_libs ++ libs)) 0,
        ),
        omega (arith, length-append envp (entries ++ last), length-append entries last),
      )
place_entries-preloads envp entries libs (some v) e one room f =
    let new = insert_libs ++ preload_value libs (some v) in
    let (k, found, _, fewer) = getenv-set_found envp 0 v (preload_value libs (some v)) e one in
    let start : 0 + k ≡ k = omega arith in
    rw (found ∙ ap (λ n. some (n, v)) start, insert_entry-some libs v k (omega arith))
      (
        omega (arith, preloads-append (set envp k new) entries),
        omega (arith, length-append (set envp k new) entries, length-set envp k new),
      )

pub preloads-augment :
    (envp : List (List ℕ)) (libs opts sockpath : List ℕ)
    → preloads envp ≤ 1
    → length libs + value_length (getenv envp ld_preload) + 12 < env_buf_size
    → (preloads (voyeur_augment_environment envp libs opts sockpath) ≤ 1)
      × (length (voyeur_augment_environment envp libs opts sockpath)
          ≡ length envp + (3 + new_preload (getenv envp ld_preload)))
unfolding voyeur_augment_environment voyeur_entries
preloads-augment envp libs opts sockpath one room =
    place_entries-preloads envp (voyeur_entries libs opts sockpath) libs _ refl one room
      (preloads-voyeur_entries libs opts sockpath)

pub preload_value-length :
    (libs : List ℕ) (old : Option (List ℕ))
    → length (preload_value libs old) ≤ length libs + value_length old + 1
unfolding preload_value
preload_value-length libs none = omega arith
preload_value-length libs (some v) = elim (Bool-cases (strnstr v libs (env_buf_size * 2))) [
  | inl there ↦ rw there (omega arith)
  | inr missing ↦ rw missing (omega (arith, length-append libs (58 ∷ v)))
]

-- The libraries are not put in front of a value that holds them.
pub preload_value_again :
    (libs v : List ℕ)
    → length v ≤ env_buf_size * 2
    → occurs v libs ≡ true
    → preload_value libs (some v) ≡ v
unfolding preload_value
preload_value_again libs v h there = rw (strnstr_short v libs (env_buf_size * 2) h, there) refl
