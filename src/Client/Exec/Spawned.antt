-- ===== src/Client/Exec/Spawned.antt =====
-- Whole calls of the posix_spawn functions.
use libvoyeur.Client.Exec.Spawn.{
  SpawnStatics, voyeur_init_posix_spawn, spawn_initialized, voyeur_posix_spawn, voyeur_posix_spawnp,
}
use libvoyeur.Common.{
  false, ℕ, ◌+◌, ◌≤◌, ◌≡◌, refl, true, Option, some, List, arith, M, ◌>>=◌, length,
}
use libvoyeur.Kernel.{Kernel, View, IsReliable}
use libvoyeur.Net.Stream.{HasSent}
use libvoyeur.Net.Connect.{voyeur_create_client_socket}
use libvoyeur.Options.{voyeur_decode_options}
use libvoyeur.Event.{voyeur_event_exec}
use libvoyeur.Env.{voyeur_augment_environment}
use libvoyeur.Client.{Process, libvoyeur_libs, libvoyeur_opts, libvoyeur_socket}
use libvoyeur.Client.Calls.{Keeps}
use libvoyeur.Client.Exec.{NextExec, augmented}
use libvoyeur.Client.Exec.Sent.{exec_event, reports, AreCstrs, write_exec_event_lem}
use libvoyeur.Protocol.{bytes_if}

-- The static variables of the posix_spawn functions once they are set.
abbrev pub spawn_ready : List ℕ → List ℕ → List ℕ → ℕ → Option ℕ → SpawnStatics
spawn_ready libs opts sockpath options sock = record {
  initialized = true;
  libs = some libs;
  opts = some opts;
  options = options;
  sockpath = some sockpath;
  sock = sock;
}

-- The two functions; `posix_spawnp` searches PATH.
pub data SpawnCall : Type 0 where
  spawns spawns_on_path : SpawnCall

abbrev next_of :
    {K : Kernel}
    → NextExec K
    → SpawnCall
    → List ℕ
    → ℕ
    → ℕ
    → List (List ℕ)
    → List (List ℕ)
    → K.State
    → (ℕ × ℕ) × K.State
next_of N spawns = N.next_posix_spawn
next_of N spawns_on_path = N.next_posix_spawnp

module _ (K : Kernel) (fuel : ℕ) (P : Process) (N : NextExec K) where
  abbrev pub run_spawn :
      SpawnCall
      → List ℕ
      → ℕ
      → ℕ
      → List (List ℕ)
      → List (List ℕ)
      → SpawnStatics
      → M K.State ((ℕ × ℕ) × SpawnStatics)
  run_spawn spawns = voyeur_posix_spawn K fuel P N
  run_spawn spawns_on_path = voyeur_posix_spawnp K fuel P N

-- What the real function answers, in the augmented environment: its result with the child's pid.
abbrev pub real_spawn :
    {K : Kernel}
    → NextExec K
    → SpawnCall
    → List ℕ
    → ℕ
    → ℕ
    → List (List ℕ)
    → List (List ℕ)
    → List ℕ
    → List ℕ
    → List ℕ
    → K.State
    → (ℕ × ℕ) × K.State
real_spawn N made path actions attr argv envp libs opts sockpath s =
    next_of N made path actions attr argv (voyeur_augment_environment envp libs opts sockpath) s

module _ {K : Kernel} {V : View K} (L : IsReliable V) (fuel sock : ℕ) (P : Process) where
  spawn_initialized_lem :
      (N : NextExec K) (made : SpawnCall) (path : List ℕ) (actions attr : ℕ)
      (argv envp : List (List ℕ)) (libs opts sockpath : List ℕ) (options : ℕ) (s : K.State)
      → AreCstrs P path argv envp
      → Keeps V sock s (real_spawn N made path actions attr argv envp libs opts sockpath s).1
      → Keeps V sock
          (real_spawn N made path actions attr argv envp libs opts sockpath s).1
          (N.access path (real_spawn N made path actions attr argv envp libs opts sockpath s).1).1
      → length (
            exec_event P options path argv envp
              (real_spawn N made path actions attr argv envp libs opts sockpath s).0.1
              P.getpid)
          + V.delays s
        ≤ fuel
      → HasSent V sock s
          (bytes_if
            (reports options
              (N.access path
                (real_spawn N made path actions attr argv envp libs opts sockpath s).1).0)
            (exec_event P options path argv envp
              (real_spawn N made path actions attr argv envp libs opts sockpath s).0.1
              P.getpid))
          (
            (real_spawn N made path actions attr argv envp libs opts sockpath s).0,
            spawn_ready libs opts sockpath options (some sock),
          )
          (spawn_initialized K fuel P N
            (next_of N made)
            path
            actions
            attr
            argv
            envp
            (spawn_ready libs opts sockpath options (some sock))
            s)
  unfolding spawn_initialized augmented
  spawn_initialized_lem N made path actions attr argv envp libs opts sockpath options s strs
        (kept, up, d) access h =
      let (t, e, sent, u, d') =
        write_exec_event_lem L fuel sock P N options path argv envp
          (real_spawn N made path actions attr argv envp libs opts sockpath s).0.1 P.getpid
          (real_spawn N made path actions attr argv envp libs opts sockpath s).1 strs up access
          (omega arith) in
      (t, rw (e, ◌>>=◌), rw kept at sent, u, omega arith)

  -- With a connection, its variables set, and C strings, `posix_spawn` and `posix_spawnp` return
  -- what their real function answered in the augmented environment, leave their variables alone,
  -- and send the event with the child's pid exactly if it is to be reported. The real call and the
  -- check of the path leave the connection alone, the stream keeps the promises of a stream socket,
  -- and there is fuel for each byte and each temporary error.
  pub posix_spawn_lem :
      (N : NextExec K) (made : SpawnCall) (path : List ℕ) (actions attr : ℕ)
      (argv envp : List (List ℕ)) (libs opts sockpath : List ℕ) (options : ℕ) (s : K.State)
      → AreCstrs P path argv envp
      → Keeps V sock s (real_spawn N made path actions attr argv envp libs opts sockpath s).1
      → Keeps V sock
          (real_spawn N made path actions attr argv envp libs opts sockpath s).1
          (N.access path (real_spawn N made path actions attr argv envp libs opts sockpath s).1).1
      → length (
            exec_event P options path argv envp
              (real_spawn N made path actions attr argv envp libs opts sockpath s).0.1
              P.getpid)
          + V.delays s
        ≤ fuel
      → HasSent V sock s
          (bytes_if
            (reports options
              (N.access path
                (real_spawn N made path actions attr argv envp libs opts sockpath s).1).0)
            (exec_event P options path argv envp
              (real_spawn N made path actions attr argv envp libs opts sockpath s).0.1
              P.getpid))
          (
            (real_spawn N made path actions attr argv envp libs opts sockpath s).0,
            spawn_ready libs opts sockpath options (some sock),
          )
          (run_spawn K fuel P N made path actions attr argv envp
            (spawn_ready libs opts sockpath options (some sock))
            s)
  unfolding voyeur_posix_spawn voyeur_posix_spawnp voyeur_init_posix_spawn
  posix_spawn_lem N spawns = spawn_initialized_lem N spawns
  posix_spawn_lem N spawns_on_path = spawn_initialized_lem N spawns_on_path

  -- The first call of either goes on with the variables that are set from the environment and the new
  -- connection, as a later call does.
  pub posix_spawn_first :
      (N : NextExec K) (made : SpawnCall) (path : List ℕ) (actions attr : ℕ)
      (argv envp : List (List ℕ)) {libs opts sockpath : List ℕ} (st : SpawnStatics) (s t : K.State)
      → st.initialized ≡ false
      → P.getenv libvoyeur_libs ≡ some libs
      → P.getenv libvoyeur_opts ≡ some opts
      → P.getenv libvoyeur_socket ≡ some sockpath
      → voyeur_create_client_socket K (some sockpath) s ≡ some (some sock, t)
      → run_spawn K fuel P N made path actions attr argv envp st s
        ≡ run_spawn K fuel P N made path actions attr argv envp
            (spawn_ready libs opts sockpath
              (voyeur_decode_options (some opts) voyeur_event_exec)
              (some sock))
            t
  unfolding voyeur_posix_spawn voyeur_posix_spawnp voyeur_init_posix_spawn
  posix_spawn_first N spawns path actions attr argv envp st s t new l o p connected =
      rw (new, l, o, p) (rw (connected, ◌>>=◌) refl)
  posix_spawn_first N spawns_on_path path actions attr argv envp st s t new l o p connected =
      rw (new, l, o, p) (rw (connected, ◌>>=◌) refl)
