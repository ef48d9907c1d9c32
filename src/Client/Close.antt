-- ===== src/Client/Close.antt =====
-- voyeur-close.c: the interposed `close` and its destructor.
use libvoyeur.Common.{ℕ, Bool, true, false, Option, none, some, M, pure, call, ◌>>=◌, if◌then◌else◌}
use libvoyeur.Kernel.{Kernel}
use libvoyeur.Net.{Status, voyeur_write_int, voyeur_write_pid}
use libvoyeur.Net.Connect.{voyeur_create_client_socket}
use libvoyeur.Options.{voyeur_decode_options}
use libvoyeur.Event.{voyeur_event_close}
use libvoyeur.Client.{Process, libvoyeur_opts, libvoyeur_socket, when_sock, write_event}
use libvoyeur.Client.Open.{say_done}

-- The static variables. `looked_up` says whether `voyeur_close_next` points to the next `close`; it is
-- a null pointer before.
pub record CloseStatics : Type 0 where
  pub initialized : Bool
  pub finalized : Bool
  pub opts : ℕ
  pub sock : Option ℕ
  pub looked_up : Bool

abbrev pub close_statics : CloseStatics
close_statics = record {
  initialized = false;
  finalized = false;
  opts = 0;
  sock = some 0;
  looked_up = false;
}

-- The next `close` in the order of the dynamic linker.
abbrev pub NextClose : Kernel → Type 0
NextClose K = ℕ → K.State → ℕ × K.State

module _ (K : Kernel) (fuel : ℕ) (P : Process) where
  unfoldable pub init_close : CloseStatics → M K.State CloseStatics
  init_close st = if st.initialized then pure st else do
    sock ← voyeur_create_client_socket K (P.getenv libvoyeur_socket)
    pure (record st {
      initialized = true;
      opts = voyeur_decode_options (P.getenv libvoyeur_opts) voyeur_event_close;
      sock = sock;
      looked_up = true;
    })

  unfoldable pub write_close_event : ℕ → ℕ → ℕ → M K.State Status
  write_close_event sock fildes retval = write_event K fuel sock voyeur_event_close do
    _ ← voyeur_write_int K fuel sock fildes
    _ ← voyeur_write_int K fuel sock retval
    voyeur_write_pid K fuel sock P.getpid

-- A call through `voyeur_close_next`, which faults on a null pointer.
unfoldable pub call_next_close : (K : Kernel) → NextClose K → CloseStatics → ℕ → M K.State ℕ
call_next_close K next st fildes = if st.looked_up then call (next fildes) else λ s. none

module _ (K : Kernel) (fuel : ℕ) (P : Process) (next : NextClose K) where
  unfoldable pub close_initialized : ℕ → CloseStatics → M K.State (ℕ × CloseStatics)
  close_initialized fildes st = do
    retval ← call_next_close K next st fildes
    _ ← when_sock st.sock λ sock. write_close_event K fuel P sock fildes retval
    pure (retval, st)

  -- The return value of `close`, and the static variables after the call.
  unfoldable pub voyeur_close : ℕ → CloseStatics → M K.State (ℕ × CloseStatics)
  voyeur_close fildes st =
      if st.finalized
      then (do retval ← call_next_close K next st fildes; pure (retval, st))
      else init_close K fuel P st >>= close_initialized fildes

module _ (K : Kernel) (fuel : ℕ) where
  unfoldable pub voyeur_cleanup_close : CloseStatics → M K.State CloseStatics
  voyeur_cleanup_close st =
      if st.initialized
      then (do
        sock ← say_done K fuel st.sock
        pure (record st { finalized = true; initialized = false; sock = sock }))
      else pure (record st { finalized = true })
