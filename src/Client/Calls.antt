-- ===== src/Client/Calls.antt =====
-- Whole calls of the interposed `open`, `close` and exit functions.
use libvoyeur.Common.{
  ℕ, ◌+◌, ◌≤◌, ◌<◌, ◌≡◌, refl, ◌∙◌, true, false, Option, none, some, List, ◌++◌, arith, ◌>>=◌,
  length, if◌then◌else◌,
}
use libvoyeur.Kernel.{Kernel, View, IsReliable}
use libvoyeur.Net.{voyeur_msg_done}
use libvoyeur.Net.Stream.{HasSent}
use libvoyeur.Net.Values.{int_bytes, IsCstr?, write_msg_type-Sends}
use libvoyeur.Net.Connect.{connect_retries, Counts, create_client_socket_lem, close_socket_lem}
use libvoyeur.Options.{has_flag, voyeur_decode_options}
use libvoyeur.Event.{voyeur_event_open, voyeur_event_close}
use libvoyeur.Client.{Process, libvoyeur_opts, libvoyeur_socket}
use libvoyeur.Client.Open.{
  OpenStatics, open_ready, NextOpen, init_open, open_initialized, voyeur_open, say_done,
  voyeur_cleanup_open,
}
use libvoyeur.Client.Close.{
  CloseStatics, NextClose, init_close, call_next_close, close_initialized, voyeur_close,
}
use libvoyeur.Client.Sent.{write_close_event-Sends, write_open_event-Sends}
use libvoyeur.Protocol.{message_bytes, open_body, close_body}

-- Another system call that does not touch the connection `fd`.
abbrev pub Keeps : {K : Kernel} → View K → ℕ → K.State → K.State → Type 0
Keeps V fd s t = (V.sent t fd ≡ V.sent s fd) × (V.up t fd ≡ true) × (V.delays t ≤ V.delays s)

-- The bytes of the event for one call of `open`.
abbrev pub open_event :
    {K : Kernel} → Process → NextOpen K → ℕ → Option (List ℕ) → ℕ → ℕ → ℕ → List ℕ
open_event P N opts path oflag mode retval = message_bytes voyeur_event_open (
    open_body opts path oflag (if has_flag oflag N.o_creat then mode else 0) retval P.getcwd
      P.getpid)

-- The static variables of the `open` library after its destructor.
abbrev pub open_over : ℕ → OpenStatics
open_over opts = record { initialized = false; opts = opts; sock = none }

-- The real call that `open` passes through.
abbrev pub real_open : {K : Kernel} → NextOpen K → Option (List ℕ) → ℕ → ℕ → K.State → ℕ × K.State
real_open N path oflag mode =
    N.next_open path oflag (if has_flag oflag N.o_creat then some mode else none)

-- The bytes of the event for one call of `close`.
abbrev pub close_event : Process → ℕ → ℕ → List ℕ
close_event P fildes retval = message_bytes voyeur_event_close (close_body fildes retval P.getpid)

module _ (K : Kernel) (fuel : ℕ) (P : Process) where
  -- The first call of `open`, with the socket's path in the environment, tries to connect at most
  -- 20 times, and goes on as a call with the options from the environment and that socket does. The
  -- number of tries is counted by a number that connect(2) raises by one and the other calls leave
  -- alone.
  pub open_first :
      {tries : K.State → ℕ} (C : Counts K tries) (N : NextOpen K) (path : Option (List ℕ))
      (oflag mode : ℕ) (st : OpenStatics) {address : List ℕ} (s : K.State)
      → st.initialized ≡ false
      → P.getenv libvoyeur_socket ≡ some address
      → (t : K.State) × (tries t ≤ tries s + connect_retries)
        × (voyeur_open K fuel P N path oflag mode st s
            ≡ voyeur_open K fuel P N path oflag mode
                (open_ready
                  (voyeur_decode_options (P.getenv libvoyeur_opts) voyeur_event_open)
                  (K.socket s).0)
                t)
  unfolding voyeur_open init_open
  open_first C N path oflag mode st {address} s fresh address_set =
      let (t, e, bound) = create_client_socket_lem C address s in
      (t, bound, rw (fresh, address_set, e, ◌>>=◌))

module _ {K : Kernel} {V : View K} (L : IsReliable V) (fuel sock : ℕ) where
  pub say_done_lem :
      (s : K.State)
      → V.up s sock ≡ true
      → length (int_bytes voyeur_msg_done) + V.delays s < fuel
      → (t : K.State) × (say_done K fuel (some sock) s ≡ some (none, t))
        × (V.sent t sock ≡ V.sent s sock ++ int_bytes voyeur_msg_done)
  unfolding say_done
  say_done_lem s u h =
      let (t, e, sent, u', d) =
        (write_msg_type-Sends L fuel sock voyeur_msg_done).run s u (omega arith) in
      let (t', e', kept, d') = close_socket_lem L sock fuel t (omega arith) in
      (t', rw (e, ◌>>=◌) (rw (e', ◌>>=◌)), kept ∙ sent)

  -- With a connection, the destructor of the `open` library sends the end message and nothing else,
  -- and leaves variables with which a second run does nothing. The stream keeps the promises of a
  -- stream socket, and there is fuel for each byte, each temporary error and the call of close(2).
  pub cleanup_open_lem :
      (opts : ℕ) (s : K.State)
      → V.up s sock ≡ true
      → length (int_bytes voyeur_msg_done) + V.delays s < fuel
      → (t : K.State) × (voyeur_cleanup_open K fuel (open_ready opts (some sock)) s
          ≡ some (open_over opts, t))
        × (V.sent t sock ≡ V.sent s sock ++ int_bytes voyeur_msg_done)
        × (voyeur_cleanup_open K fuel (open_over opts) t ≡ some (open_over opts, t))
  unfolding voyeur_cleanup_open
  cleanup_open_lem opts s u h =
      let (t, e, sent) = say_done_lem s u h in (t, rw (e, ◌>>=◌), sent, refl)

  module _ (P : Process) where
    -- With a connection and strings without NULs, `open` returns what the real `open` returned,
    -- leaves its variables alone, and sends one event for the call, with mode 0 where none was
    -- passed. The real call leaves the connection alone, the stream keeps the promises of a stream
    -- socket, and there is fuel for each byte and each temporary error.
    pub open_lem :
        (N : NextOpen K) (opts : ℕ) (path : Option (List ℕ)) (oflag mode : ℕ) (s : K.State)
        → IsCstr? path
        → IsCstr? P.getcwd
        → Keeps V sock s (real_open N path oflag mode s).1
        → length (open_event P N opts path oflag mode (real_open N path oflag mode s).0)
            + V.delays s
          ≤ fuel
        → HasSent V sock s
            (open_event P N opts path oflag mode (real_open N path oflag mode s).0)
            ((real_open N path oflag mode s).0, open_ready opts (some sock))
            (voyeur_open K fuel P N path oflag mode (open_ready opts (some sock)) s)
    unfolding voyeur_open init_open open_initialized
    open_lem N opts path oflag mode s hp hc (kept, up, d) h =
        let real = real_open N path oflag mode s in
        let (t, e, sent, u, d') =
          (write_open_event-Sends L fuel sock P opts path oflag
              (if has_flag oflag N.o_creat then mode else 0) real.0 hp hc).run
            real.1 up (omega arith) in
        (t, rw (e, ◌>>=◌), rw kept at sent, u, omega arith)

    -- With a connection, and before the destructor has run, `close` returns what the real `close`
    -- returned, leaves its variables alone, and sends one event for the call. The real call leaves
    -- the connection alone, the stream keeps the promises of a stream socket, and there is fuel for
    -- each byte and each temporary error.
    pub close_lem :
        (next : NextClose K) (st : CloseStatics) (fildes : ℕ) (s : K.State)
        → st.initialized ≡ true
        → st.finalized ≡ false
        → st.looked_up ≡ true
        → st.sock ≡ some sock
        → Keeps V sock s (next fildes s).1
        → length (close_event P fildes (next fildes s).0) + V.delays s ≤ fuel
        → HasSent V sock s
            (close_event P fildes (next fildes s).0)
            ((next fildes s).0, st)
            (voyeur_close K fuel P next fildes st s)
    unfolding voyeur_close init_close call_next_close close_initialized
    close_lem next st fildes s ready running linked has_sock (kept, up, d) h =
        let (t, e, sent, u, d') =
          (write_close_event-Sends L fuel sock P fildes (next fildes s).0).run (next fildes s).1 up
            (omega arith) in
        (t, simp (running, ready, linked, has_sock, e, ◌>>=◌) refl, rw kept at sent, u, omega arith)
