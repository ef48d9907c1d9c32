-- ===== src/Server/Setup.antt =====
-- voyeur.c: `voyeur_prepare`, and the thread that waits for the child.
use libvoyeur.Common.{ℕ, Option, none, some, List, [], ◌∷◌, ◌++◌, M, ◌>>=◌, ◌==◌, if◌then◌else◌}
use libvoyeur.Kernel.{Kernel}
use libvoyeur.Net.{voyeur_write_int}
use libvoyeur.Net.Connect.{voyeur_close_socket}
use libvoyeur.Event.{Context}
use libvoyeur.Event.Requested.{voyeur_requested_libs, voyeur_requested_opts}
use libvoyeur.Env.{insert_entry, find_existing, voyeur_entries, voyeur_augment_environment}

-- The thread, once waitpid(2) has given the status.
unfoldable pub waitpid_thread : (K : Kernel) → ℕ → ℕ → ℕ → M K.State (Unit {0})
waitpid_thread K fuel child_pipe_input status =
    voyeur_write_int K fuel child_pipe_input status >>= λ _.
    voyeur_close_socket K fuel child_pipe_input

-- The NUL-terminated string at the start of some memory, if there is one.
unfoldable pub cstr_at : List ℕ → Option (List ℕ)
cstr_at [] = none
cstr_at (c ∷ mem) =
    let rest = cstr_at mem in
    if c == 0 then some [] else elim rest [ none ↦ none | some s ↦ some (c ∷ s) ]

-- What follows the call of `voyeur_requested_libs`.
unfoldable pub prepare_environment :
    List ℕ
    → ℕ
    → List ℕ
    → List (List ℕ)
    → List ℕ × Context
    → Option (Option (List (List ℕ)) × Context)
prepare_environment beyond sock path envp (libs, context) =
    let (opts, context) = voyeur_requested_opts context in
    elim (cstr_at (opts ++ beyond)) [
      | none ↦ none
      | some opts ↦ some (
        some (voyeur_augment_environment envp libs opts path),
        record context {
          server_state = some (record {
            sun_path = path;
            server_sock = some sock;
            env_buf = some (
                voyeur_entries libs opts path
                ++ (insert_entry libs (find_existing envp 0 none) ∷ []));
          });
        },
      )
    ]

-- `voyeur_prepare`. `server` is what `voyeur_create_server_socket` gives, the socket and its path, and
-- `beyond` the memory behind the buffer of the options. The environment is `none` where it is a null
-- pointer, and so is the result where a string has no end.
unfoldable pub voyeur_prepare :
    Option (List ℕ)
    → List ℕ
    → Option ℕ × List ℕ
    → Context
    → List (List ℕ)
    → Option (Option (List (List ℕ)) × Context)
voyeur_prepare fname beyond (none, path) context envp = some (
  none,
  record context {
    server_state = some (record { sun_path = path; server_sock = none; env_buf = none });
  },
)
voyeur_prepare fname beyond (some sock, path) context envp =
    prepare_environment beyond sock path envp (voyeur_requested_libs fname context)
