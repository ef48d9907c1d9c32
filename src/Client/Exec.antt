-- ===== src/Client/Exec.antt =====
-- voyeur-exec.c: the interposed functions that start a program.
--
-- A program's arguments and its environment are the lists of the strings before the null pointer. The
-- two pointers that posix_spawn passes through untouched are numbers.
pub mod Sent
pub mod Calls
pub mod Spawn
pub mod Spawned
pub mod Descent
use libvoyeur.Common.{
  ℕ, Bool, true, false, Option, none, some, List, [], ◌∷◌, M, pure, call, ◌>>=◌, ◌>>◌, length,
  if◌then◌else◌,
}
use libvoyeur.Kernel.{Kernel}
use libvoyeur.Net.{
  Status, success, voyeur_msg_done, voyeur_write_msg_type, voyeur_write_int, voyeur_write_pid,
  voyeur_write_string,
}
use libvoyeur.Net.Connect.{voyeur_create_client_socket, voyeur_close_socket}
use libvoyeur.Options.{
  has_flag, voyeur_decode_options, observe_exec_cwd, observe_exec_env, observe_exec_path,
  observe_exec_noaccess, observe_exec_silent,
}
use libvoyeur.Event.{voyeur_event_exec}
use libvoyeur.Env.{voyeur_augment_environment}
use libvoyeur.Text.{codes}
use libvoyeur.Client.{
  Process, libvoyeur_libs, libvoyeur_opts, libvoyeur_socket, when_sock, write_event,
}
use libvoyeur.Client.Open.{say_done}

-- The real functions, and access(2) with `X_OK`. A spawn gives its return value and the child's pid.
pub record NextExec (K : Kernel) : Type 0 where
  pub access : List ℕ → K.State → Bool × K.State
  pub next_execve : List ℕ → List (List ℕ) → List (List ℕ) → K.State → ℕ × K.State
  pub next_execvpe : List ℕ → List (List ℕ) → List (List ℕ) → K.State → ℕ × K.State
  pub next_posix_spawn :
      List ℕ → ℕ → ℕ → List (List ℕ) → List (List ℕ) → K.State → (ℕ × ℕ) × K.State
  pub next_posix_spawnp :
      List ℕ → ℕ → ℕ → List (List ℕ) → List (List ℕ) → K.State → (ℕ × ℕ) × K.State

-- The early returns: of a library that is there only to be passed on, and, where it is asked for, of
-- a path that cannot be executed.
unfoldable pub exec_guard : {S : Type 0} → Bool → Bool → M S Bool → M S Status → M S Status
exec_guard true noaccess may_access write = pure success
exec_guard false true may_access write = write
exec_guard false false may_access write = do ok ← may_access; if ok then write else pure success

module _ (K : Kernel) (fuel : ℕ) (P : Process) (sock : ℕ) where
  unfoldable pub write_strings : List (List ℕ) → M K.State Status
  write_strings [] = pure success
  write_strings (s ∷ ss) = do _ ← voyeur_write_string K fuel sock (some s) 0; write_strings ss

  unfoldable pub write_counted : List (List ℕ) → M K.State Status
  write_counted ss = do _ ← voyeur_write_int K fuel sock (length ss); write_strings ss

  unfoldable pub write_exec_body :
      ℕ → List ℕ → List (List ℕ) → List (List ℕ) → ℕ → ℕ → M K.State Status
  write_exec_body options path argv envp pid ppid = do
    _ ← voyeur_write_string K fuel sock (some path) 0
    _ ← write_counted argv
    _ ← if has_flag options observe_exec_env then write_counted envp else pure success
    _ ←
        if has_flag options observe_exec_path
        then voyeur_write_string K fuel sock (P.getenv (codes "PATH")) 0
        else pure success
    _ ←
        if has_flag options observe_exec_cwd
        then voyeur_write_string K fuel sock P.getcwd 0
        else pure success
    _ ← voyeur_write_pid K fuel sock pid
    voyeur_write_pid K fuel sock ppid

  unfoldable pub write_exec_event :
      NextExec K → ℕ → List ℕ → List (List ℕ) → List (List ℕ) → ℕ → ℕ → M K.State Status
  write_exec_event N options path argv envp pid ppid =
      exec_guard (has_flag options observe_exec_silent) (has_flag options observe_exec_noaccess)
        (call (N.access path))
        (write_event K fuel sock voyeur_event_exec
          (write_exec_body options path argv envp pid ppid))

-- The environment for the new program; the values are null pointers where the variables are not set,
-- and reading them faults.
unfoldable pub augmented :
    {S : Type 0}
    → Option (List ℕ)
    → Option (List ℕ)
    → Option (List ℕ)
    → List (List ℕ)
    → M S (List (List ℕ))
augmented (some libs) (some opts) (some sockpath) envp =
    pure (voyeur_augment_environment envp libs opts sockpath)
augmented _ _ _ envp = λ s. none

-- `VARARGS_TO_ARGV`: the arguments behind `start`, which the loop does not copy.
unfoldable pub varargs_to_argv : List ℕ → List ℕ → List (List ℕ) → List (List ℕ)
varargs_to_argv start path args = path ∷ args

module _ (K : Kernel) (fuel : ℕ) (P : Process) (environ : List (List ℕ)) (N : NextExec K) where
  -- The event of an exec call, the end message, and the end of the connection.
  unfoldable pub report_exec :
      List ℕ → List (List ℕ) → List (List ℕ) → Option ℕ → M K.State (Option ℕ)
  report_exec path argv envp none = pure none
  report_exec path argv envp (some sock) = do
    _ ←
        write_exec_event K fuel P sock N
          (voyeur_decode_options (P.getenv libvoyeur_opts) voyeur_event_exec) path argv envp
          P.getpid P.getppid
    say_done K fuel (some sock)

  -- What the variants have in common, with the real function that each calls.
  unfoldable pub exec_through :
      (List ℕ → List (List ℕ) → List (List ℕ) → K.State → ℕ × K.State)
      → List ℕ
      → List (List ℕ)
      → List (List ℕ)
      → M K.State ℕ
  exec_through next path argv envp = do
    sock ← voyeur_create_client_socket K (P.getenv libvoyeur_socket)
    _ ← report_exec path argv envp sock
    voyeur_envp ←
        augmented (P.getenv libvoyeur_libs) (P.getenv libvoyeur_opts) (P.getenv libvoyeur_socket)
          envp
    call (next path argv voyeur_envp)

  unfoldable pub voyeur_execve : List ℕ → List (List ℕ) → List (List ℕ) → M K.State ℕ
  voyeur_execve path argv envp = exec_through N.next_execve path argv envp

  unfoldable pub voyeur_execl : List ℕ → List ℕ → List (List ℕ) → M K.State ℕ
  voyeur_execl path start args = voyeur_execve path (varargs_to_argv start path args) environ

  unfoldable pub voyeur_execle : List ℕ → List ℕ → List (List ℕ) → List (List ℕ) → M K.State ℕ
  voyeur_execle path start args envp = voyeur_execve path (varargs_to_argv start path args) envp

  unfoldable pub voyeur_execv : List ℕ → List (List ℕ) → M K.State ℕ
  voyeur_execv path argv = voyeur_execve path argv environ

  unfoldable pub voyeur_execlp : List ℕ → List ℕ → List (List ℕ) → M K.State ℕ
  voyeur_execlp path start args =
      exec_through N.next_execvpe path (varargs_to_argv start path args) environ

  unfoldable pub voyeur_execvp : List ℕ → List (List ℕ) → M K.State ℕ
  voyeur_execvp path argv = exec_through N.next_execvpe path argv environ

  unfoldable pub voyeur_execvpe : List ℕ → List (List ℕ) → List (List ℕ) → M K.State ℕ
  voyeur_execvpe path argv envp = exec_through N.next_execvpe path argv envp
