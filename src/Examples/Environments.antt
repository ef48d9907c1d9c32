-- ===== src/Examples/Environments.antt =====
-- Runs of env.c and of the functions of event.c that fill the environment.
use libvoyeur.Server.Setup.{voyeur_prepare}
use libvoyeur.Common.{
  ℕ, zero, suc, ◌<◌, ◌≡◌, ◌≢◌, refl, true, none, some, List, [], ◌∷◌, ◌++◌, arith, length, All,
}
use libvoyeur.Event.{
  Context, voyeur_event_exec, voyeur_event_exit, voyeur_event_open, voyeur_event_close,
  voyeur_event_max,
}
use libvoyeur.Event.Requested.{voyeur_requested_libs, voyeur_requested_opts}
use libvoyeur.Event.Requested.Libs.{libs_of, requested_libs_lem}
use libvoyeur.Event.Requested.Opts.{requested, requested_opts_decode, requested_opts_unterminated}
use libvoyeur.Env.{
  insert_libs, env_buf_size, insert_entry, voyeur_entries, voyeur_augment_environment,
}
use libvoyeur.Env.Lookup.{getenv, ld_preload, getenv-augment}
use libvoyeur.Env.Insert.{preload_value, insert_entry_cut}
use libvoyeur.Env.Preload.{preload-augment}
use libvoyeur.Server.Prepare.{wanted_libs, prepare_lem}
use libvoyeur.Client.{libvoyeur_opts, libvoyeur_socket}
use libvoyeur.Text.{codes, occurs}
use libvoyeur.Examples.Data.{watching, watching-HasByteOpts}
use mathlib.Core.Option.{or_else}

requested_libs_lem_example :
    voyeur_requested_libs none watching
    ≡ (libs_of (codes "/l/") (some 2) (some 3) (some 4), watching)
unfolding libvoyeur.Event.Requested.resource_dir
requested_libs_lem_example = requested_libs_lem none watching (omega arith) (omega arith)

requested_opts_decode_example :
    (requested watching voyeur_event_exec ≡ 8)
    × (requested watching voyeur_event_exit ≡ 0)
    × (requested watching voyeur_event_open ≡ 1)
    × (requested watching voyeur_event_close ≡ 0)
requested_opts_decode_example = requested_opts_decode watching watching-HasByteOpts

requested_opts_unterminated_example :
    (length (voyeur_requested_opts watching).0 ≡ voyeur_event_max)
    × All (λ c. 0 < c) (voyeur_requested_opts watching).0
requested_opts_unterminated_example = requested_opts_unterminated watching watching-HasByteOpts

-- An environment with one preloaded library.
abbrev environment : List (List ℕ)
environment = codes "HOME=/h" ∷ codes "LD_PRELOAD=/p.so" ∷ codes "LANG=C" ∷ []

getenv-augment_example :
    getenv
      (voyeur_augment_environment environment (codes "/l.so") (codes "H@A@") (codes "/s"))
      (codes "LIBVOYEUR_OPTS")
    ≡ or_else (getenv environment (codes "LIBVOYEUR_OPTS")) (
        getenv
          (voyeur_entries (codes "/l.so") (codes "H@A@") (codes "/s"))
          (codes "LIBVOYEUR_OPTS"))
getenv-augment_example =
    getenv-augment environment (codes "/l.so") (codes "H@A@") (codes "/s") (codes "LIBVOYEUR_OPTS")
      (ground arith) (λ e. ground arith)

preload-augment_example :
    (getenv
        (voyeur_augment_environment environment (codes "/l.so") (codes "H@A@") (codes "/s"))
        ld_preload
      ≡ some (preload_value (codes "/l.so") (getenv environment ld_preload)))
    × (occurs (preload_value (codes "/l.so") (getenv environment ld_preload)) (codes "/l.so")
        ≡ true)
unfolding libvoyeur.Env.Preload.preloads libvoyeur.Text.starts_with getenv
    libvoyeur.Text.strip_prefix or_else
preload-augment_example =
    preload-augment environment (codes "/l.so") (codes "H@A@") (codes "/s") (omega arith)
      (omega arith)

prepare_lem_example :
    (env : List (List ℕ)) × (after : Context) × (voyeur_prepare none
        (0 ∷ [])
        (some 9, codes "/s")
        watching
        environment
      ≡ some (some env, after))
    × (getenv env libvoyeur_socket ≡ some (codes "/s"))
    × (getenv env libvoyeur_opts ≡ some (voyeur_requested_opts watching).0)
    × (getenv env ld_preload
        ≡ some (preload_value (wanted_libs none watching) (getenv environment ld_preload)))
unfolding libvoyeur.Env.Preload.preloads libvoyeur.Text.starts_with getenv
    libvoyeur.Text.strip_prefix or_else libvoyeur.Event.Requested.resource_dir
prepare_lem_example =
    prepare_lem none [] 9 (codes "/s") watching environment watching-HasByteOpts (omega arith)
      (omega arith) (omega arith) refl refl (omega arith) (omega arith)

abbrev repeated : ℕ → List ℕ
repeated zero = []
repeated (suc n) = 120 ∷ repeated n

insert_entry_cut_example :
    (length (insert_entry (repeated 2040) (some (0, []))) < env_buf_size)
    × (insert_entry (repeated 2040) (some (0, []))
        ≢ insert_libs ++ preload_value (repeated 2040) (some []))
unfolding libvoyeur.Text.strnstr libvoyeur.Text.occurs libvoyeur.Text.starts_with
insert_entry_cut_example = insert_entry_cut (repeated 2040) [] 0 refl (omega arith) (omega arith)
