-- ===== src/Server/Prepare.antt =====
-- What a program finds in the environment that `voyeur_prepare` makes.
use libvoyeur.Server.Setup.{cstr_at, prepare_environment, voyeur_prepare}
use libvoyeur.Common.{
  ℕ, ◌+◌, ◌≤◌, ◌<◌, ◌≡◌, ◌≢◌, refl, ap, ◌∙◌, Option, none, some, List, [], ◌∷◌, ◌++◌, arith, All,
  length, take-all,
}
use libvoyeur.Common.Bytes.{IsCstr}
use libvoyeur.Text.{strip_prefix, strlcat, strlcpy}
use libvoyeur.Event.{Context}
use libvoyeur.Event.Requested.{voyeur_requested_opts, voyeur_requested_libs, resource_dir}
use libvoyeur.Event.Requested.Libs.{libs_of, requested_libs_lem}
use libvoyeur.Event.Requested.Opts.{HasByteOpts, requested_opts_unterminated}
use libvoyeur.Env.{
  env_entry, env_buf_size, insert_entry, find_existing, voyeur_entries, voyeur_augment_environment,
}
use libvoyeur.Env.Lookup.{getenv, IsName, ld_preload, getenv-augment}
use libvoyeur.Env.Insert.{preload_value, value_length}
use libvoyeur.Env.Preload.{preloads, preload-augment}
use libvoyeur.Client.{libvoyeur_opts, libvoyeur_socket}
use mathlib.Core.Option.{or_else}

cstr_at_lem : (s rest : List ℕ) → All (λ c. 0 < c) s → cstr_at (s ++ (0 ∷ rest)) ≡ some s
unfolding cstr_at
cstr_at_lem [] rest h = refl
cstr_at_lem (c ∷ s) rest (hc, hs) = ground (arith, cstr_at_lem s rest hs)

-- The new entries give the options and the path of the socket.
pub entries-opts :
    (libs opts path : List ℕ)
    → length opts ≤ 2032
    → getenv (voyeur_entries libs opts path) libvoyeur_opts ≡ some opts
unfolding getenv voyeur_entries env_entry strlcat strlcpy strip_prefix or_else
entries-opts libs opts path h = ap some (take-all 2032 opts h)

pub entries-socket :
    (libs opts path : List ℕ)
    → length path ≤ 2030
    → getenv (voyeur_entries libs opts path) libvoyeur_socket ≡ some path
unfolding getenv voyeur_entries env_entry strlcat strlcpy strip_prefix or_else
entries-socket libs opts path h = ap some (take-all 2030 path h)

-- A variable that was not set before has the value of the new entries.
getenv-new :
    (envp : List (List ℕ)) (libs opts path name : List ℕ) {value : List ℕ}
    → IsName name
    → name ≢ ld_preload
    → getenv envp name ≡ none
    → getenv (voyeur_entries libs opts path) name ≡ some value
    → getenv (voyeur_augment_environment envp libs opts path) name ≡ some value
getenv-new envp libs opts path name h ne unset given =
    getenv-augment envp libs opts path name h ne ∙ rw (unset, given) (unfold or_else in refl)

-- The libraries that are to be preloaded for a context.
abbrev pub wanted_libs : Option (List ℕ) → Context → List ℕ
wanted_libs fname context =
    libs_of (resource_dir fname context) context.on_exit.cb context.on_open.cb context.on_close.cb

-- The context with the state of a server whose environment was made.
abbrev serving_context : List ℕ → ℕ → List ℕ → List ℕ → List (List ℕ) → Context → Context
serving_context path sock libs opts envp context = record context {
  server_state = some (record {
    sun_path = path;
    server_sock = some sock;
    env_buf =
        some
          (voyeur_entries libs opts path ++ (insert_entry libs (find_existing envp 0 none) ∷ []));
  });
}

prepared :
    (fname : Option (List ℕ)) (rest : List ℕ) (sock : ℕ) (path : List ℕ) (context : Context)
    (envp : List (List ℕ)) {libs : List ℕ}
    → voyeur_requested_libs fname context ≡ (libs, context)
    → HasByteOpts context
    → voyeur_prepare fname (0 ∷ rest) (some sock, path) context envp
      ≡ some (
        some (voyeur_augment_environment envp libs (voyeur_requested_opts context).0 path),
        serving_context path sock libs
            (voyeur_requested_opts context).0
            envp
            (voyeur_requested_opts context).1,
      )
unfolding voyeur_prepare prepare_environment
prepared fname rest sock path context envp e b =
    let (len, full) = requested_opts_unterminated context b in
    ap (prepare_environment (0 ∷ rest) sock path envp) e
    ∙ rw (prepare_environment, cstr_at_lem (voyeur_requested_opts context).0 rest full) refl

-- Given a server's socket and a path of fewer than 108 bytes, options that are bytes, a directory
-- of libraries that is a C string of at most 4096 bytes, an environment that sets neither the
-- socket's path nor the options and sets `LD_PRELOAD` at most once, room for the key, the libraries
-- and the old value, and a NUL behind the buffer of the options, `voyeur_prepare` makes an
-- environment in which a program finds the path, the requested options, and the libraries of the
-- observed events in `LD_PRELOAD`, in front of its old value unless they are in it.
pub prepare_lem :
    (fname : Option (List ℕ)) (rest : List ℕ) (sock : ℕ) (path : List ℕ) (context : Context)
    (envp : List (List ℕ))
    → HasByteOpts context
    → IsCstr (resource_dir fname context)
    → length (resource_dir fname context) ≤ 4096
    → length path < 108
    → getenv envp libvoyeur_opts ≡ none
    → getenv envp libvoyeur_socket ≡ none
    → preloads envp ≤ 1
    → length (wanted_libs fname context) + value_length (getenv envp ld_preload) + 12 < env_buf_size
    → (env : List (List ℕ)) × (after : Context) × (voyeur_prepare fname
          (0 ∷ rest)
          (some sock, path)
          context
          envp
        ≡ some (some env, after))
      × (getenv env libvoyeur_socket ≡ some path)
      × (getenv env libvoyeur_opts ≡ some (voyeur_requested_opts context).0)
      × (getenv env ld_preload
          ≡ some (preload_value (wanted_libs fname context) (getenv envp ld_preload)))
prepare_lem fname rest sock path context envp b c h short no_opts no_socket one room =
    let libs = wanted_libs fname context in
    let opts : List ℕ = (voyeur_requested_opts context).0 in
    let (len, full) = requested_opts_unterminated context b in
    let e = prepared fname rest sock path context envp (requested_libs_lem fname context c h) b in
    (
      voyeur_augment_environment envp libs opts path,
      _,
      e,
      getenv-new envp libs opts path libvoyeur_socket (ground arith) (λ q. ground arith) no_socket
          (entries-socket libs opts path (omega arith)),
      getenv-new envp libs opts path libvoyeur_opts (ground arith) (λ q. ground arith) no_opts
          (entries-opts libs opts path (omega arith)),
      (preload-augment envp libs opts path one room).0,
    )
