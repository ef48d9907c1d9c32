-- ===== src/Client/Open.antt =====
-- voyeur-open.c: the interposed `open` and its destructor.
use libvoyeur.Common.{ℕ, Bool, true, false, Option, none, some, M, pure, call, ◌>>=◌, if◌then◌else◌}
use libvoyeur.Common.{List}
use libvoyeur.Kernel.{Kernel}
use libvoyeur.Net.{
  Status, success, voyeur_msg_done, voyeur_write_msg_type, voyeur_write_int, voyeur_write_pid,
  voyeur_write_string,
}
use libvoyeur.Net.Connect.{voyeur_create_client_socket, voyeur_close_socket}
use libvoyeur.Options.{has_flag, voyeur_decode_options, observe_open_cwd}
use libvoyeur.Event.{voyeur_event_open}
use libvoyeur.Client.{Process, libvoyeur_opts, libvoyeur_socket, when_sock, write_event}

-- The static variables; a socket is none where it is negative.
pub record OpenStatics : Type 0 where
  pub initialized : Bool
  pub opts : ℕ
  pub sock : Option ℕ

abbrev pub open_statics : OpenStatics
open_statics = record { initialized = false; opts = 0; sock = some 0 }

-- The variables after the first call of `open`.
abbrev pub open_ready : ℕ → Option ℕ → OpenStatics
open_ready opts sock = record { initialized = true; opts = opts; sock = sock }

-- The next `open` in the order of the dynamic linker, with the mode where one is passed on, and the
-- value of `O_CREAT`.
pub record NextOpen (K : Kernel) : Type 0 where
  pub o_creat : ℕ
  pub next_open : Option (List ℕ) → ℕ → Option ℕ → K.State → ℕ × K.State

module _ (K : Kernel) (fuel : ℕ) (P : Process) where
  unfoldable pub init_open : OpenStatics → M K.State OpenStatics
  init_open st = if st.initialized then pure st else do
    sock ← voyeur_create_client_socket K (P.getenv libvoyeur_socket)
    pure (open_ready (voyeur_decode_options (P.getenv libvoyeur_opts) voyeur_event_open) sock)

  unfoldable pub write_open_cwd : ℕ → ℕ → M K.State Status
  write_open_cwd sock opts =
      if has_flag opts observe_open_cwd
      then voyeur_write_string K fuel sock P.getcwd 0
      else pure success

  unfoldable pub write_open_event : ℕ → ℕ → Option (List ℕ) → ℕ → ℕ → ℕ → M K.State Status
  write_open_event sock opts path oflag mode retval = write_event K fuel sock voyeur_event_open do
    _ ← voyeur_write_string K fuel sock path 0
    _ ← voyeur_write_int K fuel sock oflag
    _ ← voyeur_write_int K fuel sock mode
    _ ← voyeur_write_int K fuel sock retval
    _ ← write_open_cwd sock opts
    voyeur_write_pid K fuel sock P.getpid

module _ (K : Kernel) (fuel : ℕ) (P : Process) (N : NextOpen K) where
  -- `mode` is the argument behind `oflag`, which is read only with `O_CREAT`.
  unfoldable pub open_initialized :
      Option (List ℕ) → ℕ → ℕ → OpenStatics → M K.State (ℕ × OpenStatics)
  open_initialized path oflag mode st =
      let creates = has_flag oflag N.o_creat in
      do
        retval ← call (N.next_open path oflag (if creates then some mode else none))
        _ ← when_sock st.sock λ sock.
            write_open_event K fuel P sock st.opts path oflag (if creates then mode else 0) retval
        pure (retval, st)

  -- The return value of `open`, and the static variables after the call.
  unfoldable pub voyeur_open : Option (List ℕ) → ℕ → ℕ → OpenStatics → M K.State (ℕ × OpenStatics)
  voyeur_open path oflag mode st = init_open K fuel P st >>= open_initialized path oflag mode

module _ (K : Kernel) (fuel : ℕ) where
  unfoldable pub say_done : Option ℕ → M K.State (Option ℕ)
  say_done none = pure none
  say_done (some sock) = do
    _ ← voyeur_write_msg_type K fuel sock voyeur_msg_done
    _ ← voyeur_close_socket K fuel sock
    pure none

  unfoldable pub voyeur_cleanup_open : OpenStatics → M K.State OpenStatics
  voyeur_cleanup_open st =
      if st.initialized
      then (do sock ← say_done st.sock; pure (record st { initialized = false; sock = sock }))
      else pure st
