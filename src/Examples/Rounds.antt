-- ===== src/Examples/Rounds.antt =====
-- Rounds of `run_server`.
use libvoyeur.Server.Setup.{waitpid_thread}
use libvoyeur.Common.{
  ℕ, ◌+◌, ◌≤◌, ◌<◌, ◌≡◌, ◌≢◌, refl, true, false, Option, none, some, List, [], ◌∷◌, ◌++◌, arith,
  length, ◌>>=◌,
}
use libvoyeur.Kernel.{other_errno}
use libvoyeur.Kernel.Script.{Link, link, link-IsReliable}
use libvoyeur.Event.Handle.{Call}
use libvoyeur.Server.{
  ServerCalls, SelectOutcome, selected, select_failed, Serving, serve, finish_server, fd_set,
  log_call, serve_accept,
}
use libvoyeur.Server.Child.{child_status_lost}
use libvoyeur.Server.Trace.{Rounds, over, spoke, serve-Rounds}
use libvoyeur.Net.{success, voyeur_read_int_into}
use libvoyeur.Event.Handle.{handle_message}
use libvoyeur.Server.Loop.{only, no_fd}
use libvoyeur.Server.Round.{serve_select_failed}
use libvoyeur.Server.Session.{observed_close}
use libvoyeur.Client.Calls.{close_event}
use libvoyeur.Examples.Data.{sent_stream, refusing, pipe-IsReliable, stream, program, watching}

-- select(2) with one answer.
abbrev answering : SelectOutcome → ServerCalls link
answering o = record { select = λ active s. (o, s); accept = λ fd s. (none, s) }

-- The socket is 3, the pipe of the child 4, and a client 5 is connected.
abbrev busy : Serving
busy = record {
  active = fd_set 5 (fd_set 4 (fd_set 3 (λ n. false)));
  child_exited = false;
  child_status = 0;
  calls = [];
}

abbrev close_made : Option Call
close_made = observed_close watching program 3 0

abbrev close_stream : Link
close_stream = stream (close_event program 3 0)

serve_select_failed_example :
    (t : Link) × ((serve link 99 (answering (select_failed other_errno)) watching 3 4 8 busy
          >>= finish_server link 99 (answering (select_failed other_errno)) watching 3 4)
        (stream [])
      ≡ some ((some 0, []), t))
serve_select_failed_example =
    serve_select_failed link-IsReliable 99 (answering (select_failed other_errno)) watching 3 4 7
      busy (stream []) (stream []) refl refl refl (omega arith)

waitpid_run : waitpid_thread refusing 9 6 1280 0 ≡ some (tt, 0)
unfolding waitpid_thread libvoyeur.Net.voyeur_write_int libvoyeur.Net.do_write
    libvoyeur.Net.write_loop libvoyeur.Net.after_send libvoyeur.Net.retries_send
    libvoyeur.Common.Bytes.word_bytes libvoyeur.Net.Connect.voyeur_close_socket
    libvoyeur.Net.Connect.after_close
waitpid_run = refl

child_status_lost_example :
    (t : Link) × ((serve link 99 (answering (selected (only 4) no_fd)) watching 3 4 8 busy
          >>= finish_server link 99 (answering (selected (only 4) no_fd)) watching 3 4)
        (stream [])
      ≡ some ((some 0, []), t))
child_status_lost_example =
    child_status_lost link-IsReliable pipe-IsReliable 99 9 6 (answering (selected (only 4) no_fd))
      watching 3 4 7 1280 busy 0 0 0 (stream []) (stream []) refl refl (omega arith) waitpid_run
      refl refl (omega arith) (λ e. omega arith) refl refl refl (omega arith)

-- Two events of one client, in two rounds.
abbrev one_event : List ℕ
one_event = close_event program 3 0

abbrev heard_once : Link
heard_once = record (sent_stream []) { incoming = one_event }

first_heard :
    handle_message link 99 watching 5 (stream (one_event ++ one_event))
    ≡ some ((success, close_made), heard_once)
unfolding handle_message libvoyeur.Event.Handle.after_msg_type libvoyeur.Event.Handle.dispatch
    libvoyeur.Event.Handle.voyeur_handle_event libvoyeur.Event.Handle.handle_close
    libvoyeur.Net.voyeur_read_msg_type libvoyeur.Net.voyeur_read_event_type
    libvoyeur.Net.voyeur_read_int libvoyeur.Net.voyeur_read_pid libvoyeur.Net.read_word
    libvoyeur.Net.do_read libvoyeur.Net.do_read_stored libvoyeur.Net.filled libvoyeur.Net.read_loop
    libvoyeur.Net.after_read libvoyeur.Net.retries_read libvoyeur.Common.Bytes.word_bytes
    libvoyeur.Common.Bytes.of_bytes libvoyeur.Protocol.message_bytes libvoyeur.Protocol.close_body
first_heard = refl

second_heard :
    handle_message link 99 watching 5 heard_once ≡ some ((success, close_made), sent_stream [])
unfolding handle_message libvoyeur.Event.Handle.after_msg_type libvoyeur.Event.Handle.dispatch
    libvoyeur.Event.Handle.voyeur_handle_event libvoyeur.Event.Handle.handle_close
    libvoyeur.Net.voyeur_read_msg_type libvoyeur.Net.voyeur_read_event_type
    libvoyeur.Net.voyeur_read_int libvoyeur.Net.voyeur_read_pid libvoyeur.Net.read_word
    libvoyeur.Net.do_read libvoyeur.Net.do_read_stored libvoyeur.Net.filled libvoyeur.Net.read_loop
    libvoyeur.Net.after_read libvoyeur.Net.retries_read libvoyeur.Common.Bytes.word_bytes
    libvoyeur.Common.Bytes.of_bytes libvoyeur.Protocol.message_bytes libvoyeur.Protocol.close_body
second_heard = refl

abbrev both_made : List Call
both_made = log_call close_made [] ++ (log_call close_made [] ++ [])

abbrev busy_after : Serving
busy_after = record busy { calls = log_call close_made (log_call close_made []) }

two-Rounds :
    Rounds link 99
      (answering (selected (only 5) no_fd))
      watching
      3
      4
      2
      busy
      (stream (one_event ++ one_event))
      both_made
      busy_after
      (sent_stream [])
two-Rounds =
    spoke (omega arith) (λ e. omega arith) (λ e. omega arith) refl first_heard
      (spoke (omega arith) (λ e. omega arith) (λ e. omega arith) refl second_heard over)

serve-Rounds_example :
    (serve link 99
        (answering (selected (only 5) no_fd))
        watching
        3
        4
        (2 + 8)
        busy
        (stream (one_event ++ one_event))
      ≡ serve link 99
          (answering (selected (only 5) no_fd))
          watching
          3
          4
          8
          busy_after
          (sent_stream []))
    × (busy_after.calls ≡ [] ++ both_made)
    × (busy_after.child_exited ≡ false)
    × (busy_after.child_status ≡ busy.child_status)
serve-Rounds_example =
    serve-Rounds 99 (answering (selected (only 5) no_fd)) watching 3 4 two-Rounds 8 refl

-- The server's socket 3 is closed twice at the end: once by itself, and once as a straggler.
closed_twice :
    finish_server link 9 (answering (select_failed other_errno)) watching 3 4 busy (sent_stream [])
    ≡ some ((some 0, []), record (sent_stream []) { closed_fds = 3 ∷ 3 ∷ 4 ∷ 5 ∷ [] })
unfolding finish_server libvoyeur.Server.for_fds libvoyeur.Server.close_straggler
    libvoyeur.Server.exit_status libvoyeur.Net.Connect.voyeur_close_socket
    libvoyeur.Net.Connect.after_close
closed_twice = refl

-- A status that ends after two bytes overwrites these two bytes of the variable, 0 before.
half_status : voyeur_read_int_into link 9 4 0 (stream (7 ∷ 1 ∷ [])) ≡ some (263, sent_stream [])
unfolding voyeur_read_int_into libvoyeur.Net.overwritten libvoyeur.Net.do_read_stored
    libvoyeur.Net.read_loop libvoyeur.Net.after_read libvoyeur.Net.retries_read
    libvoyeur.Common.Bytes.word_bytes libvoyeur.Common.Bytes.of_bytes
half_status = refl

-- FD_SET of the first descriptor that is no member of an `fd_set`.
abbrev many_clients : ServerCalls link
many_clients = record {
  select = λ active s. (selected (only 3) no_fd, s);
  accept = λ fd s. (some 1024, s);
}

outside_set : serve_accept link 9 many_clients 3 busy (stream []) ≡ none
unfolding serve_accept libvoyeur.Server.watch
outside_set = refl
