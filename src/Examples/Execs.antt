-- ===== src/Examples/Execs.antt =====
-- A whole run of `voyeur_exec`.
use libvoyeur.Server.Setup.{voyeur_prepare, waitpid_thread}
use libvoyeur.Common.{
  ℕ, ◌+◌, ◌≤◌, ◌<◌, ◌≡◌, ◌≢◌, refl, sym, ap, ◌∙◌, true, false, Bool, Option, none, some, List, [],
  call, ◌>>=◌, ◌∷◌, ◌++◌, arith, length, take, drop, take-append-drop, ltb, ◌==◌, ==_iff,
  Bool-cases, inl, inr, if◌then◌else◌,
}
use libvoyeur.Text.{codes}
use libvoyeur.Kernel.Script.{Link}
use libvoyeur.Kernel.Pipe.{pipe_link, pipe_link_view, pipe_link-IsReliable}
use mathlib.Core.Path.{subst}
use libvoyeur.Net.{Status, success, failure}
use libvoyeur.Net.Stream.{HasRead}
use libvoyeur.Net.Serve.{ServeCalls, voyeur_create_server_socket}
use libvoyeur.Event.{Context}
use libvoyeur.Event.Handle.{Call, handle_message}
use libvoyeur.Event.Any.{event_bytes, call_of, handle_message-Event}
use libvoyeur.Protocol.{message_bytes}
use libvoyeur.Env.Lookup.{getenv}
use libvoyeur.Env.Preload.{preloads}
use libvoyeur.Server.{ServerCalls, selected, Serving, serving_start, fd_set, log_call}
use libvoyeur.Server.Loop.{only, no_fd}
use libvoyeur.Server.Trace.{Rounds, over, spoke, connected}
use libvoyeur.Server.Prepare.{prepare_lem}
use libvoyeur.Server.Start.{ProcessCalls, returned, voyeur_exec}
use libvoyeur.Server.Start.Exec.{exec-Rounds}
use libvoyeur.Examples.Data.{stream, watching, watching-HasByteOpts}
use libvoyeur.Examples.Serving.{close_said, one_client}
use mathlib.Core.Option.{or_else}

-- A system on which the server's socket is 7 and the pipe 4, with 6 as its other end.
abbrev made_socket : ServeCalls pipe_link
made_socket = record {
  mkdtemp = λ template s. (codes "/tmp/a", s);
  unlink = λ path s. (success, s);
  rmdir = λ path s. (success, s);
  bind = λ sock path s. (success, s);
  listen = λ sock backlog s. (success, s);
}

-- The thread that waits for the child runs at once.
abbrev made_process : ProcessCalls pipe_link
made_process = record {
  pipe = λ s. (some (4, 6), s);
  waitpid = λ pid s. (1280, s);
  pthread_create = λ thread s. elim (thread s) [ none ↦ s | some (_, t) ↦ t ];
  posix_spawnp = λ path argv envp s. (some 42, s);
}

abbrev one_speaker : ServerCalls pipe_link
one_speaker = record { select = one_client.select; accept = one_client.accept }

-- The bytes of one event, in a system that has closed the pipe.
abbrev at_exec : Link
at_exec = stream (event_bytes watching close_said)

abbrev thread_over : Link
thread_over = record at_exec { hiccups = 0; closed_fds = 6 ∷ [] }

abbrev home : List (List ℕ)
home = codes "HOME=/h" ∷ []

abbrev exec_path : List ℕ
exec_path = codes "/tmp/a/socket"

exec_made :
    voyeur_create_server_socket pipe_link made_socket at_exec ≡ some ((some 7, exec_path), at_exec)
unfolding voyeur_create_server_socket libvoyeur.Net.Serve.bind_and_listen
    libvoyeur.Net.Serve.or_error libvoyeur.Net.Serve.socket_path libvoyeur.Text.strlcpy
    libvoyeur.Text.strlcat
exec_made = refl

exec_prepared :
    (env : List (List ℕ)) × (after : Context) × (voyeur_prepare none
        (0 ∷ [])
        (some 7, exec_path)
        watching
        home
      ≡ some (some env, after))
unfolding preloads libvoyeur.Text.starts_with getenv libvoyeur.Text.strip_prefix or_else
    libvoyeur.Event.Requested.resource_dir
exec_prepared =
    let (env, after, e, _, _, _) =
      prepare_lem none [] 7 exec_path watching home watching-HasByteOpts (omega arith) (omega arith)
        (omega arith) refl refl (omega arith) (omega arith) in
    (env, after, e)

thread_run :
    (call (made_process.waitpid 42) >>= waitpid_thread pipe_link 99 6) at_exec
    ≡ some (tt, thread_over)
unfolding waitpid_thread libvoyeur.Net.voyeur_write_int libvoyeur.Net.do_write
    libvoyeur.Net.write_loop libvoyeur.Net.after_send libvoyeur.Net.retries_send
    libvoyeur.Common.Bytes.word_bytes libvoyeur.Net.Connect.voyeur_close_socket
    libvoyeur.Net.Connect.after_close
thread_run = refl

abbrev exec_start : Serving
exec_start = serving_start pipe_link 99 one_speaker exec_prepared.1 7 4

exec_heard :
    HasRead pipe_link_view 5 thread_over []
      (success, call_of exec_prepared.1 close_said)
      (handle_message pipe_link 99 exec_prepared.1 5 thread_over)
unfolding libvoyeur.Common.Bytes.word_bytes message_bytes libvoyeur.Protocol.close_body
exec_heard =
    (handle_message-Event pipe_link-IsReliable 99 5 exec_prepared.1 close_said
        (omega arith, omega arith, omega arith)).run
      thread_over [] refl refl (omega arith)

abbrev exec_calls : List Call
exec_calls = log_call (call_of exec_prepared.1 close_said) [] ++ []

abbrev exec_served : Serving
exec_served = record exec_start {
  active = fd_set 5 exec_start.active;
  calls = log_call (call_of exec_prepared.1 close_said) [];
}

exec_over :
    one_speaker.select exec_served.active exec_heard.0 ≡ (selected (only 4) no_fd, exec_heard.0)
exec_over = rw exec_heard.2 refl

exec_speaking :
    one_speaker.select (fd_set 5 exec_start.active) thread_over
    ≡ (selected (only 5) no_fd, thread_over)
unfolding libvoyeur.Common.Bytes.word_bytes message_bytes libvoyeur.Protocol.close_body
exec_speaking = refl

-- The state in which the server starts is the one that the thread leaves.
exec_trace :
    Rounds pipe_link 99 one_speaker exec_prepared.1 7 4 2 exec_start
      (made_process.pthread_create
        (call (made_process.waitpid 42) >>= waitpid_thread pipe_link 99 6)
        at_exec)
      exec_calls
      exec_served
      exec_heard.0
exec_trace =
    subst
      (λ s.
        Rounds pipe_link 99 one_speaker exec_prepared.1 7 4 2 exec_start s exec_calls exec_served
          exec_heard.0)
      (sym (ap (λ r. elim r [ none ↦ at_exec | some (_, t) ↦ t ]) thread_run))
      (connected (omega arith) refl refl (omega arith)
        (spoke (omega arith) (λ e. omega arith) (λ e. omega arith) exec_speaking exec_heard.1 over))

exec-Rounds_example :
    (t : Link) × (voyeur_exec pipe_link 99 made_socket made_process one_speaker false 10 none
        (0 ∷ [])
        watching
        (codes "/a")
        []
        home
        at_exec
      ≡ some (returned (some 0) exec_calls, t))
exec-Rounds_example =
    exec-Rounds pipe_link-IsReliable 99 made_socket made_process one_speaker none (0 ∷ []) watching
      exec_prepared.1 (codes "/a") [] home exec_prepared.0 7 exec_path 42 4 6 at_exec at_exec
      at_exec at_exec exec_heard.0 exec_heard.0 at_exec at_exec at_exec thread_over 7 1280 exec_made
      exec_prepared.2 refl refl refl refl refl (omega arith) thread_run exec_trace (omega arith)
      (omega arith) (λ e. omega arith) exec_over exec_heard.3 exec_heard.2
      (omega (arith, exec_heard.4))
