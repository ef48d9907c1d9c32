-- ===== src/Client/Exit.antt =====
-- voyeur-exit.c: the interposed functions that end a process.
use libvoyeur.Common.{
  ℕ, Bool, true, Option, none, some, List, [], ◌∷◌, M, pure, ◌>>=◌, if◌then◌else◌,
}
use libvoyeur.Kernel.{Kernel}
use libvoyeur.Net.{
  Status, voyeur_msg_done, voyeur_write_msg_type, voyeur_write_int, voyeur_write_pid,
}
use libvoyeur.Net.Connect.{voyeur_create_client_socket, voyeur_close_socket}
use libvoyeur.Event.{voyeur_event_exit}
use libvoyeur.Client.{Process, libvoyeur_socket, write_event}

module _ (K : Kernel) (fuel : ℕ) (P : Process) where
  -- What is written on the new socket.
  unfoldable pub write_exit_messages : ℕ → ℕ → M K.State Status
  write_exit_messages sock status = write_event K fuel sock voyeur_event_exit do
    _ ← voyeur_write_int K fuel sock status
    _ ← voyeur_write_pid K fuel sock P.getpid
    _ ← voyeur_write_pid K fuel sock P.getppid
    voyeur_write_msg_type K fuel sock voyeur_msg_done

  unfoldable pub write_exit_on : ℕ → Option ℕ → M K.State (Unit {0})
  write_exit_on status none = pure tt
  write_exit_on status (some sock) =
      write_exit_messages sock status >>= λ _. voyeur_close_socket K fuel sock

  -- The Boolean is `did_exit_already`, before and after.
  unfoldable pub write_exit_event : ℕ → Bool → M K.State Bool
  write_exit_event status did_exit_already = if did_exit_already then pure true else do
    sock ← voyeur_create_client_socket K (P.getenv libvoyeur_socket)
    _ ← write_exit_on status sock
    pure true

-- The ways in which a process ends that reach the library; `handler` is the one that `on_exit`
-- registers.
pub data ExitPath : Type 0 where
  exit_function underscore_exit underscore_Exit exit_group handler : ExitPath

module _ (K : Kernel) (fuel : ℕ) (P : Process) (real_exit : ExitPath → ℕ → K.State → K.State) where
  -- Each variant reports the status and goes on to the real function; the handler returns.
  unfoldable pub voyeur_exit : ExitPath → ℕ → Bool → M K.State Bool
  voyeur_exit way status did_exit_already = do
    did ← write_exit_event K fuel P status did_exit_already
    λ s. some (did, real_exit way status s)

  -- The calls that one process makes on its way out, one after the other.
  unfoldable pub exit_calls : List (ExitPath × ℕ) → Bool → M K.State Bool
  exit_calls [] did = pure did
  exit_calls ((way, status) ∷ later) did = voyeur_exit way status did >>= exit_calls later
