-- ===== src/Client/Exec/Spawn.antt =====
-- voyeur-exec.c: the two posix_spawn functions, their variables and their destructor.
use libvoyeur.Common.{ℕ, Bool, true, false, Option, List, M, pure, call, ◌>>=◌, if◌then◌else◌}
use libvoyeur.Kernel.{Kernel}
use libvoyeur.Net.Connect.{voyeur_create_client_socket}
use libvoyeur.Options.{voyeur_decode_options}
use libvoyeur.Event.{voyeur_event_exec}
use libvoyeur.Client.{Process, libvoyeur_libs, libvoyeur_opts, libvoyeur_socket, when_sock}
use libvoyeur.Client.Open.{say_done}
use libvoyeur.Client.Exec.{NextExec, augmented, write_exec_event}

-- The static variables of posix_spawn.
pub record SpawnStatics : Type 0 where
  pub initialized : Bool
  pub libs : Option (List ℕ)
  pub opts : Option (List ℕ)
  pub options : ℕ
  pub sockpath : Option (List ℕ)
  pub sock : Option ℕ

module _ (K : Kernel) (fuel : ℕ) (P : Process) where
  unfoldable pub voyeur_init_posix_spawn : SpawnStatics → M K.State SpawnStatics
  voyeur_init_posix_spawn st = if st.initialized then pure st else do
    sock ← voyeur_create_client_socket K (P.getenv libvoyeur_socket)
    pure (record {
      initialized = true;
      libs = P.getenv libvoyeur_libs;
      opts = P.getenv libvoyeur_opts;
      options = voyeur_decode_options (P.getenv libvoyeur_opts) voyeur_event_exec;
      sockpath = P.getenv libvoyeur_socket;
      sock = sock;
    })

  unfoldable pub voyeur_cleanup_posix_spawn : SpawnStatics → M K.State SpawnStatics
  voyeur_cleanup_posix_spawn st =
      if st.initialized
      then (do
        sock ← say_done K fuel st.sock
        pure (record st { initialized = false; sock = sock }))
      else pure st

module _ (K : Kernel) (fuel : ℕ) (P : Process) (N : NextExec K) where
  -- The return value, the child's pid as it is stored for the caller, and the variables.
  unfoldable pub spawn_initialized :
      (List ℕ → ℕ → ℕ → List (List ℕ) → List (List ℕ) → K.State → (ℕ × ℕ) × K.State)
      → List ℕ
      → ℕ
      → ℕ
      → List (List ℕ)
      → List (List ℕ)
      → SpawnStatics
      → M K.State ((ℕ × ℕ) × SpawnStatics)
  spawn_initialized next path actions attr argv envp st = do
    voyeur_envp ← augmented st.libs st.opts st.sockpath envp
    spawned ← call (next path actions attr argv voyeur_envp)
    _ ←
        when_sock st.sock
          λ sock. write_exec_event K fuel P sock N st.options path argv envp spawned.1 P.getpid
    pure (spawned, st)

  unfoldable pub voyeur_posix_spawn :
      List ℕ
      → ℕ
      → ℕ
      → List (List ℕ)
      → List (List ℕ)
      → SpawnStatics
      → M K.State ((ℕ × ℕ) × SpawnStatics)
  voyeur_posix_spawn path actions attr argv envp st =
      voyeur_init_posix_spawn K fuel P st
      >>= spawn_initialized N.next_posix_spawn path actions attr argv envp

  unfoldable pub voyeur_posix_spawnp :
      List ℕ
      → ℕ
      → ℕ
      → List (List ℕ)
      → List (List ℕ)
      → SpawnStatics
      → M K.State ((ℕ × ℕ) × SpawnStatics)
  voyeur_posix_spawnp path actions attr argv envp st =
      voyeur_init_posix_spawn K fuel P st
      >>= spawn_initialized N.next_posix_spawnp path actions attr argv envp
