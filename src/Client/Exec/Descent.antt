-- ===== src/Client/Exec/Descent.antt =====
-- Programs that exec programs: the environment after any number of generations.
use libvoyeur.Common.{
  ℕ, zero, suc, ◌+◌, ◌*◌, ◌≤◌, ◌<◌, ◌≡◌, ◌≢◌, refl, sym, ap, ◌∙◌, Option, none, some, List, arith,
  length, take-all, M, pure, ◌>>=◌,
}
use libvoyeur.Text.{strip_prefix, strlcat, strlcpy}
use libvoyeur.Env.{env_entry, env_buf_size, voyeur_entries, voyeur_augment_environment}
use libvoyeur.Env.Lookup.{getenv, IsName, ld_preload, getenv-augment}
use libvoyeur.Env.Insert.{preload_value, value_length}
use libvoyeur.Env.Preload.{preloads, preload-augment}
use libvoyeur.Env.Generations.{
  new_preload, preloads-augment, preload_value-length, preload_value_again,
}
use libvoyeur.Server.Prepare.{entries-opts, entries-socket}
use libvoyeur.Client.{libvoyeur_libs, libvoyeur_opts, libvoyeur_socket}
use libvoyeur.Client.Exec.{augmented}
use mathlib.Core.Option.{or_else}

-- The environment that a program started in `env` gives to one that it starts.
unfoldable pub handed_down : List (List ℕ) → M (Unit {0}) (List (List ℕ))
handed_down env =
    augmented (getenv env libvoyeur_libs) (getenv env libvoyeur_opts) (getenv env libvoyeur_socket)
      env

unfoldable pub generations : ℕ → List (List ℕ) → M (Unit {0}) (List (List ℕ))
generations zero env = pure env
generations (suc n) env = generations n env >>= handed_down

entries-libs :
    (libs opts path : List ℕ)
    → length libs ≤ 2032
    → getenv (voyeur_entries libs opts path) libvoyeur_libs ≡ some libs
unfolding getenv voyeur_entries env_entry strlcat strlcpy strip_prefix or_else
entries-libs libs opts path h = ap some (take-all 2032 libs h)

or_else_again : {A : Type 0} (a b : Option A) → or_else (or_else a b) b ≡ or_else a b
unfolding or_else
or_else_again none none = refl
or_else_again none (some b) = refl
or_else_again (some a) b = refl

module _ (envp : List (List ℕ)) (libs opts path : List ℕ) where
  abbrev pub first : List (List ℕ)
  first = voyeur_augment_environment envp libs opts path

  -- What is true of the environment of each generation.
  record Inherits (n : ℕ) (env : List (List ℕ)) : Type 0 where
    values :
        (name : List ℕ)
        → IsName name
        → name ≢ ld_preload
        → getenv env name ≡ or_else (getenv envp name) (getenv (voyeur_entries libs opts path) name)
    preload : getenv env ld_preload ≡ some (preload_value libs (getenv envp ld_preload))
    one_preload : preloads env ≤ 1
    longer : length env ≡ length first + 3 * n

  -- The buffer has room for the libraries, twice, and the old value.
  abbrev pub HasRoom : Type 0
  HasRoom = 2 * length libs + value_length (getenv envp ld_preload) + 13 < env_buf_size

  first-Inherits : preloads envp ≤ 1 → HasRoom → Inherits 0 first
  first-Inherits one room = record {
    values = λ name h ne. getenv-augment envp libs opts path name h ne;
    preload = (preload-augment envp libs opts path one (omega arith)).0;
    one_preload = (preloads-augment envp libs opts path one (omega arith)).0;
    longer = omega arith;
  }

  next-Inherits :
      (n : ℕ) (env : List (List ℕ))
      → preloads envp ≤ 1
      → HasRoom
      → Inherits n env
      → Inherits (suc n) (voyeur_augment_environment env libs opts path)
  next-Inherits n env one room i =
      let old = getenv envp ld_preload in
      let v = preload_value libs old in
      let short = preload_value-length libs old in
      let same_length : value_length (getenv env ld_preload) ≡ length v =
        ap value_length i.preload in
      let old_entry : new_preload (getenv env ld_preload) ≡ 0 = ap new_preload i.preload in
      let there = (preload-augment envp libs opts path one (omega arith)).1 in
      let (one', len) = preloads-augment env libs opts path i.one_preload (omega arith) in
      record {
        values = λ name h ne.
            getenv-augment env libs opts path name h ne
            ∙ ap (λ o. or_else o (getenv (voyeur_entries libs opts path) name)) (i.values name h ne)
            ∙ or_else_again (getenv envp name) (getenv (voyeur_entries libs opts path) name);
        preload =
            (preload-augment env libs opts path i.one_preload (omega arith)).0
            ∙ ap (λ o. some (preload_value libs o)) i.preload
            ∙ ap some (preload_value_again libs v (omega arith) there);
        one_preload = one';
        longer = omega (arith, len, i.longer);
      }

  -- The three variables are not set yet, and what they are set to fits into the buffers.
  pub record AreNew : Type 0 where
    pub no_libs : getenv envp libvoyeur_libs ≡ none
    pub no_opts : getenv envp libvoyeur_opts ≡ none
    pub no_socket : getenv envp libvoyeur_socket ≡ none
    pub short_libs : length libs ≤ 2032
    pub short_opts : length opts ≤ 2032
    pub short_path : length path ≤ 2030

  found :
      {n : ℕ} {env : List (List ℕ)} (name value : List ℕ)
      → Inherits n env
      → IsName name
      → name ≢ ld_preload
      → getenv envp name ≡ none
      → getenv (voyeur_entries libs opts path) name ≡ some value
      → getenv env name ≡ some value
  unfolding or_else
  found name value i h ne unset given = i.values name h ne ∙ rw (unset, given) refl

  handed_down-Inherits :
      (n : ℕ) (env : List (List ℕ))
      → preloads envp ≤ 1
      → HasRoom
      → AreNew
      → Inherits n env
      → (env' : List (List ℕ)) × (handed_down env tt ≡ some (env', tt)) × Inherits (suc n) env'
  unfolding handed_down augmented
  handed_down-Inherits n env one room new i =
      let l =
        found libvoyeur_libs libs i (ground arith) (λ q. ground arith) new.no_libs
          (entries-libs libs opts path new.short_libs) in
      let o =
        found libvoyeur_opts opts i (ground arith) (λ q. ground arith) new.no_opts
          (entries-opts libs opts path new.short_opts) in
      let p =
        found libvoyeur_socket path i (ground arith) (λ q. ground arith) new.no_socket
          (entries-socket libs opts path new.short_path) in
      (
        voyeur_augment_environment env libs opts path,
        rw (l, o, p) refl,
        next-Inherits n env one room i,
      )

  generations-Inherits :
      (n : ℕ)
      → preloads envp ≤ 1
      → HasRoom
      → AreNew
      → (env : List (List ℕ)) × (generations n first tt ≡ some (env, tt)) × Inherits n env
  unfolding generations
  generations-Inherits zero one room new = (first, refl, first-Inherits one room)
  generations-Inherits (suc n) one room new =
      let (env, e, i) = generations-Inherits n one room new in
      let (env', e', i') = handed_down-Inherits n env one room new i in (env', rw (e, ◌>>=◌) e', i')

  -- After any number of generations of programs, each of which was started in the environment that
  -- the one before it gave it, augmented with the values that it found there, every variable has
  -- the value that it has in the first augmented environment, `LD_PRELOAD` among them, and the
  -- environment has three entries more for each generation. The name has no `=` in it; the original
  -- environment sets none of the three variables and sets `LD_PRELOAD` at most once; their values
  -- fit into the buffers, and the buffer of `LD_PRELOAD` has room for the libraries twice and the
  -- old value.
  pub generations_lem :
      (n : ℕ) (name : List ℕ)
      → preloads envp ≤ 1
      → HasRoom
      → AreNew
      → IsName name
      → name ≢ ld_preload
      → (env : List (List ℕ)) × (generations n first tt ≡ some (env, tt))
        × (getenv env name ≡ getenv first name)
        × (getenv env ld_preload ≡ getenv first ld_preload)
        × (length env ≡ length first + 3 * n)
  generations_lem n name one room new h ne =
      let (env, e, i) = generations-Inherits n one room new in
      let start = first-Inherits one room in
      (
        env,
        e,
        i.values name h ne ∙ sym (start.values name h ne),
        i.preload ∙ sym start.preload,
        i.longer,
      )
