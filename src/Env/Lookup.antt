-- ===== src/Env/Lookup.antt =====
-- What getenv(3) finds in an augmented environment.
use libvoyeur.Common.{
  ℕ, zero, suc, ◌+◌, ◌≡◌, ◌≢◌, refl, ◌∙◌, true, Option, none, some, List, [], ◌∷◌, ◌++◌, arith, All,
  set, get_or,
}
use libvoyeur.Text.{
  codes, strlcpy, strip_prefix, starts_with, starts_with-strip_prefix, strip_prefix-eq-none,
  starts_with-strlcat,
}
use libvoyeur.Common.{◌⊎◌, inl, inr, Bool-cases}
use libvoyeur.Env.{
  insert_libs, env_buf_size, env_entry, must_add_voyeur_libs, find_existing, place_entries,
  voyeur_entries, insert_entry, voyeur_augment_environment,
}
use mathlib.Core.Option.{or_else}

abbrev key_of : List ℕ → List ℕ
key_of name = name ++ codes "="

-- getenv(3): the value in the first entry that begins with the name and `=`.
unfoldable pub getenv : List (List ℕ) → List ℕ → Option (List ℕ)
getenv [] name = none
getenv (e ∷ env) name = or_else (strip_prefix (key_of name) e) (getenv env name)

-- No byte of a variable's name is `=`.
abbrev pub IsName : List ℕ → Type 0
IsName = All (λ c. c ≢ b'=')

abbrev pub ld_preload : List ℕ
ld_preload = codes "LD_PRELOAD"

-- One entry belongs to one name.
key_unique :
    (m n e : List ℕ)
    → IsName m
    → IsName n
    → starts_with (key_of m) e ≡ true
    → starts_with (key_of n) e ≡ true
    → m ≡ n
unfolding starts_with
key_unique [] [] e hm hn p q = refl
key_unique [] (d ∷ n) [] hm hn p q = cc
key_unique [] (d ∷ n) (c ∷ e) hm hn p q = ground arith
key_unique (d ∷ m) [] [] hm hn p q = cc
key_unique (d ∷ m) [] (c ∷ e) hm hn p q = ground arith
key_unique (d ∷ m) (d' ∷ n) [] hm hn p q = cc
key_unique (d ∷ m) (d' ∷ n) (c ∷ e) hm hn p q = ground (arith, key_unique m n e hm.1 hn.1)

-- No other name finds the entry of `LD_PRELOAD`.
other_name :
    (name e : List ℕ)
    → IsName name
    → name ≢ ld_preload
    → starts_with insert_libs e ≡ true
    → strip_prefix (key_of name) e ≡ none
other_name name e h ne p = elim (Bool-cases (starts_with (key_of name) e)) [
  | inl q ↦ absurd (ne (key_unique name ld_preload e h (omega arith) q p))
  | inr q ↦ strip_prefix-eq-none (key_of name) e q
]

pub getenv-append :
    (xs ys : List (List ℕ)) (name : List ℕ)
    → getenv (xs ++ ys) name ≡ or_else (getenv xs name) (getenv ys name)
unfolding getenv or_else
getenv-append [] ys name = refl
getenv-append (e ∷ xs) ys name = ground (arith, getenv-append xs ys name)

getenv-set :
    (envp : List (List ℕ)) (k : ℕ) (b name : List ℕ)
    → strip_prefix (key_of name) (get_or envp k []) ≡ none
    → strip_prefix (key_of name) b ≡ none
    → getenv (set envp k b) name ≡ getenv envp name
unfolding getenv or_else
getenv-set [] k b name old new = refl
getenv-set (e ∷ envp) zero b name old new = rw (old, new)
getenv-set (e ∷ envp) (suc k) b name old new = rw (getenv-set envp k b name old new)

-- The loop ends with the entry that it began with, or with one that has the prefix.
abbrev FoundAt : List (List ℕ) → ℕ → ℕ → List ℕ → Type 0
FoundAt envp i j v = (k : ℕ) × (j ≡ i + k) × (strip_prefix insert_libs (get_or envp k []) ≡ some v)

find_existing_here :
    (x : List ℕ) (envp : List (List ℕ)) (i j : ℕ) (v : List ℕ) (found : Option (ℕ × List ℕ))
    (o : Option (List ℕ))
    → strip_prefix insert_libs x ≡ o
    → elim o [ none ↦ found | some value ↦ some (i, value) ] ≡ some (j, v)
    → (found ≡ some (j, v)) ⊎ FoundAt (x ∷ envp) i j v
find_existing_here x envp i j v found none m e = inl e
find_existing_here x envp i j v found (some u) m e = inr (0, ground arith, ground arith)

find_existing_lem :
    (envp : List (List ℕ)) (i j : ℕ) (v : List ℕ) (found : Option (ℕ × List ℕ))
    → find_existing envp i found ≡ some (j, v)
    → (found ≡ some (j, v)) ⊎ FoundAt envp i j v
unfolding find_existing
find_existing_lem [] i j v found e = inl e
find_existing_lem (x ∷ envp) i j v found e = elim (find_existing_lem envp (suc i) j v _ e) [
  | inr (k, p, q) ↦ inr (suc k, omega arith, q)
  | inl p ↦ find_existing_here x envp i j v found _ refl p
]

-- The entry that is found belongs to `LD_PRELOAD`.
found_entry :
    (envp : List (List ℕ)) (k : ℕ) (v : List ℕ)
    → find_existing envp 0 none ≡ some (k, v)
    → strip_prefix insert_libs (get_or envp k []) ≡ some v
found_entry envp k v e = elim (find_existing_lem envp 0 k v none e) [
  | inl p ↦ cc
  | inr (j, p, q) ↦ let same : k ≡ j = omega arith in rw same q
]

env_entry-prefix : (value : List ℕ) → starts_with insert_libs (env_entry insert_libs value) ≡ true
unfolding env_entry strlcpy
env_entry-prefix value =
    starts_with-strlcat env_buf_size insert_libs insert_libs value (omega arith)
      (unfold starts_with in refl)

insert_entry-prefix :
    (libs : List ℕ) (found : Option (ℕ × List ℕ))
    → starts_with insert_libs (insert_entry libs found) ≡ true
unfolding insert_entry
insert_entry-prefix libs none = elim (Bool-cases (must_add_voyeur_libs libs none)) [
  | inl y ↦ rw y (env_entry-prefix libs)
  | inr n ↦ rw n (unfold starts_with strlcpy in refl)
]
insert_entry-prefix libs (some (i, existing)) =
    elim (Bool-cases (must_add_voyeur_libs libs (some (i, existing)))) [
      | inl y ↦ rw y (
          starts_with-strlcat env_buf_size insert_libs _ existing (omega arith) (
            starts_with-strlcat env_buf_size insert_libs _ (codes ":") (omega arith)
              (env_entry-prefix libs)))
      | inr n ↦ rw n (env_entry-prefix existing)
    ]

or_else_assoc {ℓ} :
    {A : Type ℓ} (a b c : Option A) → or_else (or_else a b) c ≡ or_else a (or_else b c)
unfolding or_else
or_else_assoc none b c = refl
or_else_assoc (some a) b c = refl

or_else-none {ℓ} : {A : Type ℓ} (a : Option A) → or_else a none ≡ a
unfolding or_else
or_else-none none = refl
or_else-none (some a) = refl

getenv-insert :
    (insert name : List ℕ)
    → starts_with insert_libs insert ≡ true
    → IsName name
    → name ≢ ld_preload
    → getenv (insert ∷ []) name ≡ none
unfolding getenv or_else
getenv-insert insert name p h ne = rw (other_name name insert h ne p)

getenv-place_entries :
    (envp : List (List ℕ)) (found : Option (ℕ × List ℕ)) (insert : List ℕ) (entries : List (List ℕ))
    (name : List ℕ)
    → find_existing envp 0 none ≡ found
    → starts_with insert_libs insert ≡ true
    → IsName name
    → name ≢ ld_preload
    → getenv (place_entries envp found insert entries) name
      ≡ or_else (getenv envp name) (getenv entries name)
unfolding place_entries
getenv-place_entries envp none insert entries name e p h ne =
    getenv-append envp (entries ++ (insert ∷ [])) name
    ∙ rw (getenv-append entries (insert ∷ []) name)
        (rw (getenv-insert insert name p h ne, or_else-none) refl)
getenv-place_entries envp (some (k, v)) insert entries name e p h ne =
    getenv-append (set envp k insert) entries name
    ∙ rw
        (getenv-set envp k insert name
          (other_name name _ h ne (starts_with-strip_prefix insert_libs _ (found_entry envp k v e)))
          (other_name name insert h ne p))
        refl

-- Looked up in the new environment, every variable but `LD_PRELOAD`, with no `=` in its name, has
-- the value that it had before, and otherwise the one that the three new entries give it.
pub getenv-augment :
    (envp : List (List ℕ)) (libs opts sockpath name : List ℕ)
    → IsName name
    → name ≢ ld_preload
    → getenv (voyeur_augment_environment envp libs opts sockpath) name
      ≡ or_else (getenv envp name) (getenv (voyeur_entries libs opts sockpath) name)
unfolding voyeur_augment_environment
getenv-augment envp libs opts sockpath name h ne =
    getenv-place_entries envp _ _ _ name refl (insert_entry-prefix libs _) h ne
