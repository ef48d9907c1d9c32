-- ===== src/Server/Start.antt =====
-- voyeur.c: `voyeur_start` and `voyeur_exec`, over the calls on processes that they make.
--
-- A `debug` build is one with the macro DEBUG of util.h.
pub mod Rendezvous
pub mod Outcome
pub mod Exec
pub mod Failure
use libvoyeur.Server.Setup.{waitpid_thread, voyeur_prepare, cstr_at}
use libvoyeur.Common.{
  ℕ, zero, suc, Bool, true, false, Option, none, some, List, [], ◌∷◌, ◌++◌, M, pure, call, ◌>>=◌,
  ◌>>◌, ◌+◌, ◌-◌, length, ◌==◌, if◌then◌else◌,
}
use libvoyeur.Common.Bytes.{strnlen}
use libvoyeur.Text.{strlcat}
use libvoyeur.Kernel.{Kernel}
use libvoyeur.Net.{Status}
use libvoyeur.Net.Serve.{ServeCalls, voyeur_create_server_socket}
use libvoyeur.Event.{Context, ServerState}
use libvoyeur.Event.Handle.{Call}
use libvoyeur.Server.{ServerCalls, run_server}

-- pipe(2) gives the two ends, the one to read from first. pthread_create(3) is given the code of the
-- thread, and waitpid(2) gives the status. A process that could not be started has no pid.
pub record ProcessCalls (K : Kernel) : Type 0 where
  pub pipe : K.State → Option (ℕ × ℕ) × K.State
  pub waitpid : ℕ → K.State → ℕ × K.State
  pub pthread_create : M K.State (Unit {0}) → K.State → K.State
  pub posix_spawnp : List ℕ → List (List ℕ) → List (List ℕ) → K.State → Option ℕ × K.State

-- How a call ends that runs the server: it returns, -1 as `none`, having made these calls of callbacks,
-- or it ends the process with `EXIT_FAILURE`.
pub data Ending : Type 0 where
  returned : Option ℕ → List Call → Ending
  aborted : Ending

-- What is in front of the last slash, if there is one.
unfoldable pub before_last_slash : List ℕ → Option (List ℕ)
before_last_slash [] = none
before_last_slash (c ∷ s) =
    let rest = before_last_slash s in
    elim rest [ none ↦ if c == 47 then some [] else none | some dir ↦ some (c ∷ dir) ]

-- A path once its last slash was overwritten by a NUL.
unfoldable pub cut_at_last_slash : List ℕ → List ℕ
cut_at_last_slash path = elim (before_last_slash path) [ none ↦ path | some dir ↦ dir ]

-- `WARN_ON_FAIL`, which is empty in a build without DEBUG.
unfoldable pub warn_on_fail : {S : Type 0} → Bool → (S → Status × S) → M S (Unit {0})
warn_on_fail true f = call f >>= λ _. pure tt
warn_on_fail false f = pure tt

module _ (K : Kernel) (fuel : ℕ) (P : ProcessCalls K) where
  -- The end of the pipe to read from; `none` where the process was ended.
  unfoldable pub start_waitpid_thread : ℕ → M K.State (Option ℕ)
  start_waitpid_thread child_pid = call P.pipe >>= λ ends. elim ends [
    | none ↦ pure none
    | some (output, input) ↦
        call (λ s.
          (tt, P.pthread_create (call (P.waitpid child_pid) >>= waitpid_thread K fuel input) s))
        >>= λ _. pure (some output)
  ]

module _ (K : Kernel) (F : ServeCalls K) (debug : Bool) where
  unfoldable pub clean_up_socket : List ℕ → M K.State (Unit {0})
  clean_up_socket sun_path =
      warn_on_fail debug (F.unlink sun_path)
      >> warn_on_fail debug (F.rmdir (cut_at_last_slash sun_path))

module _ (K : Kernel) (fuel : ℕ) (F : ServeCalls K) (P : ProcessCalls K) (C : ServerCalls K)
    (debug : Bool) (rounds : ℕ) where
  -- What follows `start_waitpid_thread`.
  unfoldable pub serve_child_of : Context → ℕ → List ℕ → Option ℕ → M K.State Ending
  serve_child_of context server_sock sun_path none = pure aborted
  serve_child_of context server_sock sun_path (some child_pipe_output) = do
    (res, calls) ← run_server K fuel C context server_sock child_pipe_output rounds
    _ ← clean_up_socket K F debug sun_path
    pure (returned res calls)

  -- A context without a server's socket cannot be started.
  unfoldable pub voyeur_start : Context → ℕ → M K.State Ending
  voyeur_start context child_pid = elim context.server_state [
    | none ↦ λ s. none
    | some state ↦ elim state.server_sock [
      | none ↦ λ s. none
      | some server_sock ↦
          start_waitpid_thread K fuel P child_pid
          >>= serve_child_of context server_sock state.sun_path
    ]
  ]

  -- What follows posix_spawnp(3).
  unfoldable pub start_spawned : Context → Option ℕ → M K.State Ending
  start_spawned context none = pure (returned none [])
  start_spawned context (some child_pid) = voyeur_start context child_pid

  -- What follows `voyeur_prepare`.
  unfoldable pub spawn_prepared :
      List ℕ → List (List ℕ) → Option (Option (List (List ℕ)) × Context) → M K.State Ending
  spawn_prepared path argv none = λ s. none
  spawn_prepared path argv (some (none, context)) = pure (returned none [])
  spawn_prepared path argv (some (some voyeur_envp, context)) =
      call (P.posix_spawnp path argv voyeur_envp) >>= start_spawned context

  -- `fname` and `beyond` are those of `voyeur_prepare`.
  unfoldable pub voyeur_exec :
      Option (List ℕ) → List ℕ → Context → List ℕ → List (List ℕ) → List (List ℕ) → M K.State Ending
  voyeur_exec fname beyond context path argv envp = do
    server ← voyeur_create_server_socket K F
    spawn_prepared path argv (voyeur_prepare fname beyond server context envp)

abbrev pub zeros : ℕ → List ℕ
zeros zero = []
zeros (suc n) = 0 ∷ zeros n

-- `voyeur_set_resource_path`: the new context, and how many bytes `strlcat` writes behind the memory
-- that `calloc` gave. `beyond` is that memory; where no string ends in it, the result is `none`.
unfoldable pub voyeur_set_resource_path : List ℕ → List ℕ → Context → Option (Context × ℕ)
voyeur_set_resource_path beyond path context =
    let size = strnlen path 4096 in
    elim (cstr_at (zeros size ++ beyond)) [
      | none ↦ none
      | some dst ↦
          let new = strlcat 4096 dst path in
          some (record context { resource_path = some new }, length new + 1 - size)
    ]
