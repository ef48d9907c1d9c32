-- ===== src/Server/Session.antt =====
-- A program and its observer: what an interposed call sends over the connection, `handle_message` reads
-- back as one call of the observer's callback.
pub mod Ending
pub mod Events
use libvoyeur.Common.{
  ℕ, ◌+◌, ◌%◌, ◌^◌, ◌≤◌, ◌<◌, ◌≡◌, refl, sym, ap, ◌∙◌, Bool, true, false, Option, none, some, List,
  [], ◌∷◌, ◌++◌, map, arith, M, length, length-append, drop, drop-append_length, append_assoc,
  if◌then◌else◌,
}
use libvoyeur.Kernel.{Kernel, View, IsReliable}
use libvoyeur.Net.{Status, success, failure, voyeur_msg_done}
use libvoyeur.Net.Stream.{HasRead, handed_over, handed_over_lem}
use libvoyeur.Net.Values.{int_bytes, shown, IsInt, IsCstr?}
use libvoyeur.Options.{
  has_flag, has_flag-mod, voyeur_decode_options, observe_exec_cwd, observe_exec_env,
  observe_exec_path, observe_open_cwd,
}
use libvoyeur.Event.{
  Observer, Context, voyeur_event_exec, voyeur_event_exit, voyeur_event_open, voyeur_event_close,
}
use libvoyeur.Event.Handle.{Call, exec_call, exit_call, open_call, close_call, handle_message}
use libvoyeur.Event.Message.{
  handle_message_open, handle_message_close, handle_message_exit, handle_message_exec,
  handle_message_done,
}
use libvoyeur.Event.Requested.Opts.{HasByteOpts, requested, requested_opts_decode}
use libvoyeur.Client.{Process, libvoyeur_socket}
use libvoyeur.Client.Open.{OpenStatics, open_ready, NextOpen, voyeur_open}
use libvoyeur.Client.Close.{CloseStatics, NextClose, voyeur_close}
use libvoyeur.Client.Calls.{Keeps, open_event, real_open, close_event, open_lem, close_lem}
use libvoyeur.Client.Exec.{NextExec, write_exec_event}
use libvoyeur.Client.Exec.Sent.{exec_event, reports, AreCstrs, write_exec_event_lem}
use libvoyeur.Protocol.{bytes_if, seen_if, message_bytes, exit_body}
use libvoyeur.Net.Connect.{voyeur_create_client_socket}
use libvoyeur.Client.Exit.{write_exit_event}
use libvoyeur.Client.Ending.{exit_messages, write_exit_event_lem}
use libvoyeur.Text.{codes}
use mathlib.Core.Option

-- The callback that an observer of `open` gets called.
abbrev pub observed_open :
    {K : Kernel} → Context → Process → NextOpen K → Option (List ℕ) → ℕ → ℕ → ℕ → Option Call
observed_open context P N path oflag mode retval =
    Option.map
      (λ cb.
        open_call cb (shown path) oflag (if has_flag oflag N.o_creat then mode else 0)
          (seen_if (has_flag context.on_open.opts observe_open_cwd) (shown P.getcwd)) retval
          P.getpid context.on_open.userdata)
      context.on_open.cb

abbrev pub observed_close : Context → Process → ℕ → ℕ → Option Call
observed_close context P fildes retval =
    Option.map (λ cb. close_call cb fildes retval P.getpid context.on_close.userdata)
      context.on_close.cb

mode_small : (b : Bool) (mode : ℕ) → IsInt mode → IsInt (if b then mode else 0)
mode_small b mode h = ground arith

module _ {K K' : Kernel} {V : View K} {V' : View K'} (L : IsReliable V) (L' : IsReliable V')
    (fuel fuel' sock fd : ℕ) (context : Context) (P : Process) where
  -- For a program with a connection that calls `open`, with the options that the observer
  -- requested, strings without NULs, and numbers of 32 bits, the observer that is brought the bytes
  -- the call handed over reads exactly those, leaves what follows, and makes one call of its
  -- callback, if it has one: with the first 4096 bytes of the path, the flags, the mode or 0 where
  -- none was passed, the working directory if it was asked for, the result of the real `open`, the
  -- pid and the user's data. The real call leaves the connection alone, both streams keep the
  -- promises of a stream socket, and both sides have fuel for each byte and each temporary error.
  pub open_session :
      (N : NextOpen K) (path : Option (List ℕ)) (oflag mode : ℕ) (s t : K.State)
      (answer : ℕ × OpenStatics) (u : K'.State) (rest : List ℕ)
      → HasByteOpts context
      → IsCstr? path
      → IsCstr? P.getcwd
      → IsInt oflag
      → IsInt mode
      → IsInt (real_open N path oflag mode s).0
      → IsInt P.getpid
      → Keeps V sock s (real_open N path oflag mode s).1
      → length (
            open_event P N
              (requested context voyeur_event_open)
              path
              oflag
              mode
              (real_open N path oflag mode s).0)
          + V.delays s
        ≤ fuel
      → voyeur_open K fuel P N path oflag mode
          (open_ready (requested context voyeur_event_open) (some sock))
          s
        ≡ some (answer, t)
      → V'.up u fd ≡ true
      → V'.incoming u fd ≡ handed_over V sock s t ++ rest
      → length (handed_over V sock s t) + V'.delays u ≤ fuel'
      → HasRead V' fd u rest
          (success, observed_open context P N path oflag mode (real_open N path oflag mode s).0)
          (handle_message K' fuel' context fd u)
  open_session N path oflag mode s t answer u rest b hp hc ho hm hr hpid kept h e up i h' =
      let retval : ℕ = (real_open N path oflag mode s).0 in
      let opts : ℕ = requested context voyeur_event_open in
      let given : ℕ = if has_flag oflag N.o_creat then mode else 0 in
      let over : handed_over V sock s t ≡ open_event P N opts path oflag mode retval =
        handed_over_lem V sock (open_lem L fuel sock P N opts path oflag mode s hp hc kept h) e in
      let low : opts ≡ context.on_open.opts % 32 = (requested_opts_decode context b).2 in
      let same : has_flag opts observe_open_cwd ≡ has_flag context.on_open.opts observe_open_cwd =
        rw low (has_flag-mod context.on_open.opts b.open_byte).0 in
      rw same at (
        (handle_message_open L' fuel' fd context opts path oflag given retval P.getcwd P.getpid
            (sym same) ho (mode_small (has_flag oflag N.o_creat) mode hm) hr hpid).run
          u rest up (rw over at i) (rw over at h'))

  -- For a program that calls `close` with a connection, before the destructor has run, and with
  -- numbers of 32 bits, the observer that is brought the bytes the call handed over reads exactly
  -- those and makes one call of its callback, if it has one, with the descriptor, the result of the
  -- real `close` and the pid. The real call leaves the connection alone, both streams keep the
  -- promises of a stream socket, and both sides have fuel for each byte and each temporary error.
  pub close_session :
      (next : NextClose K) (st : CloseStatics) (fildes : ℕ) (s t : K.State)
      (answer : ℕ × CloseStatics) (u : K'.State) (rest : List ℕ)
      → st.initialized ≡ true
      → st.finalized ≡ false
      → st.looked_up ≡ true
      → st.sock ≡ some sock
      → IsInt fildes
      → IsInt (next fildes s).0
      → IsInt P.getpid
      → Keeps V sock s (next fildes s).1
      → length (close_event P fildes (next fildes s).0) + V.delays s ≤ fuel
      → voyeur_close K fuel P next fildes st s ≡ some (answer, t)
      → V'.up u fd ≡ true
      → V'.incoming u fd ≡ handed_over V sock s t ++ rest
      → length (handed_over V sock s t) + V'.delays u ≤ fuel'
      → HasRead V' fd u rest
          (success, observed_close context P fildes (next fildes s).0)
          (handle_message K' fuel' context fd u)
  close_session next st fildes s t answer u rest ready running linked has_sock hf hr hpid kept h e
        up i h' =
      let over : handed_over V sock s t ≡ close_event P fildes (next fildes s).0 =
        handed_over_lem V sock
          (close_lem L fuel sock P next st fildes s ready running linked has_sock kept h) e in
      (handle_message_close L' fuel' fd context fildes (next fildes s).0 P.getpid hf hr hpid).run u
        rest up (rw over at i) (rw over at h')
