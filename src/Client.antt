-- ===== src/Client.antt =====
-- The libraries that are loaded into an observed process: what they share.
--
-- The mutexes make each interposed call one step; Threads has the one that does not hold its mutex all along.
pub mod Open
pub mod Close
pub mod Exit
pub mod Exec
pub mod Sent
pub mod Calls
pub mod Ending
pub mod Threads
pub mod Destructors
use libvoyeur.Common.{ℕ, Option, none, some, List, [], ◌∷◌, M, pure, ◌>>◌}
use libvoyeur.Net.{
  Status, success, voyeur_write_msg_type, voyeur_write_event_type, voyeur_msg_event,
}
use libvoyeur.Kernel.{Kernel}
use libvoyeur.Text.{codes}

abbrev pub libvoyeur_libs : List ℕ
libvoyeur_libs = codes "LIBVOYEUR_LIBS"

abbrev pub libvoyeur_opts : List ℕ
libvoyeur_opts = codes "LIBVOYEUR_OPTS"

abbrev pub libvoyeur_socket : List ℕ
libvoyeur_socket = codes "LIBVOYEUR_SOCKET"

-- What the calling process answers about itself during one interposed call: getenv(3), getcwd(3),
-- getpid(2) and getppid(2).
pub record Process : Type 0 where
  pub getenv : List ℕ → Option (List ℕ)
  pub getcwd : Option (List ℕ)
  pub getpid : ℕ
  pub getppid : ℕ

-- `if (sock >= 0) { … }`
abbrev pub when_sock : {S : Type 0} → Option ℕ → (ℕ → M S Status) → M S Status
when_sock none write = pure success
when_sock (some sock) write = write sock

-- The front of every event.
abbrev pub write_event : (K : Kernel) → ℕ → ℕ → ℕ → M K.State Status → M K.State Status
write_event K fuel sock type body =
    voyeur_write_msg_type K fuel sock voyeur_msg_event
    >> (voyeur_write_event_type K fuel sock type >> body)
