-- ===== src/Examples/Endings.antt =====
-- Runs of a program that starts another one, or exits, and its observer.
use libvoyeur.Common.{
  ℕ, ◌+◌, ◌≤◌, ◌<◌, ◌≡◌, refl, true, false, Option, none, some, List, [], ◌∷◌, ◌++◌, arith, length,
}
use libvoyeur.Kernel.Script.{Link, link, link_view, link-IsReliable}
use libvoyeur.Net.{Status, success, failure}
use libvoyeur.Net.Stream.{HasRead}
use libvoyeur.Event.{voyeur_event_exec}
use libvoyeur.Event.Handle.{handle_message}
use libvoyeur.Event.Requested.Opts.{requested}
use libvoyeur.Client.Exec.{write_exec_event}
use libvoyeur.Client.Exec.Sent.{exec_event}
use libvoyeur.Client.Exit.{write_exit_event}
use libvoyeur.Client.Ending.{exit_messages}
use libvoyeur.Server.Session.Ending.{observed_exec, observed_exit, exec_session, exit_session}
use libvoyeur.Text.{codes}
use libvoyeur.Examples.Data.{
  stream, sent_stream, program, watching, watching-HasByteOpts, real_exec_calls, program-AreCstrs,
}

abbrev exec_bytes : List ℕ
exec_bytes = exec_event program 8 (codes "/a") (codes "a" ∷ []) (codes "X=1" ∷ []) 41 40

exec_run :
    write_exec_event link 199 program 7 real_exec_calls
      (requested watching voyeur_event_exec)
      (codes "/a")
      (codes "a" ∷ [])
      (codes "X=1" ∷ [])
      41
      40
      (stream [])
    ≡ some (success, sent_stream exec_bytes)
unfolding write_exec_event libvoyeur.Client.Exec.exec_guard libvoyeur.Client.Exec.write_exec_body
    libvoyeur.Client.Exec.write_counted libvoyeur.Client.Exec.write_strings
    libvoyeur.Net.voyeur_write_string libvoyeur.Net.string_length libvoyeur.Net.string_payload
    libvoyeur.Net.then_write libvoyeur.Net.voyeur_write_size libvoyeur.Net.do_write
    libvoyeur.Net.write_loop libvoyeur.Net.after_send libvoyeur.Net.retries_send
    libvoyeur.Net.voyeur_write_msg_type libvoyeur.Net.voyeur_write_event_type
    libvoyeur.Net.voyeur_write_int libvoyeur.Net.voyeur_write_pid libvoyeur.Common.Bytes.word_bytes
    libvoyeur.Common.Bytes.strnlen libvoyeur.Options.has_flag
    libvoyeur.Options.voyeur_decode_options libvoyeur.Options.voyeur_encode_options
    libvoyeur.Event.Requested.voyeur_requested_opts libvoyeur.Protocol.message_bytes
    libvoyeur.Protocol.exec_body libvoyeur.Protocol.bytes_if libvoyeur.Protocol.counted_bytes
    libvoyeur.Protocol.strings_bytes libvoyeur.Net.Values.string_bytes
exec_run = refl

exec_session_example :
    HasRead link_view 5
      (stream (exec_bytes ++ (0 ∷ [])))
      (0 ∷ [])
      (
        success,
        observed_exec watching program (codes "/a") (codes "a" ∷ []) (codes "X=1" ∷ []) 41 40,
      )
      (handle_message link 199 watching 5 (stream (exec_bytes ++ (0 ∷ []))))
unfolding libvoyeur.Common.Bytes.word_bytes libvoyeur.Client.Exec.Sent.reports
    libvoyeur.Common.Bytes.strnlen libvoyeur.Options.has_flag
    libvoyeur.Options.voyeur_decode_options libvoyeur.Options.voyeur_encode_options
    libvoyeur.Event.Requested.voyeur_requested_opts libvoyeur.Protocol.message_bytes
    libvoyeur.Protocol.exec_body libvoyeur.Protocol.bytes_if libvoyeur.Protocol.counted_bytes
    libvoyeur.Protocol.strings_bytes libvoyeur.Net.Values.string_bytes
exec_session_example =
    exec_session link-IsReliable link-IsReliable 199 199 7 5 watching program real_exec_calls 1
      (codes "/a") (codes "a" ∷ []) (codes "X=1" ∷ []) 41 40 (stream []) (sent_stream exec_bytes)
      success (stream (exec_bytes ++ (0 ∷ []))) (0 ∷ []) watching-HasByteOpts refl refl
      program-AreCstrs (omega arith) (omega arith) (omega arith) (omega arith) refl
      (refl, refl, omega arith) (omega arith) exec_run refl refl (omega arith)

abbrev exit_bytes : List ℕ
exit_bytes = exit_messages program 5

exit_run :
    write_exit_event link 99 program 5 false (stream [])
    ≡ some (true, record (sent_stream exit_bytes) { closed_fds = 7 ∷ [] })
unfolding write_exit_event libvoyeur.Client.Exit.write_exit_on
    libvoyeur.Client.Exit.write_exit_messages libvoyeur.Net.do_write libvoyeur.Net.write_loop
    libvoyeur.Net.after_send libvoyeur.Net.retries_send libvoyeur.Net.voyeur_write_msg_type
    libvoyeur.Net.voyeur_write_event_type libvoyeur.Net.voyeur_write_int
    libvoyeur.Net.voyeur_write_pid libvoyeur.Net.Connect.voyeur_create_client_socket
    libvoyeur.Net.Connect.connect_socket libvoyeur.Net.Connect.connect_loop
    libvoyeur.Net.Connect.voyeur_close_socket libvoyeur.Net.Connect.after_close
    libvoyeur.Protocol.message_bytes libvoyeur.Common.Bytes.word_bytes
exit_run = refl

exit_session_example :
    (v : Link) × (handle_message link 99 watching 5 (stream (exit_bytes ++ (0 ∷ [])))
      ≡ some ((success, observed_exit watching program 5), v))
    × HasRead link_view 5 v (0 ∷ []) (failure, none) (handle_message link 99 watching 5 v)
unfolding libvoyeur.Net.Connect.voyeur_create_client_socket libvoyeur.Net.Connect.connect_socket
    libvoyeur.Net.Connect.connect_loop libvoyeur.Protocol.message_bytes
    libvoyeur.Common.Bytes.word_bytes
exit_session_example =
    exit_session link-IsReliable link-IsReliable 99 99 7 5 watching program 5 (stream [])
      (stream []) (record (sent_stream exit_bytes) { closed_fds = 7 ∷ [] }) true
      (stream (exit_bytes ++ (0 ∷ []))) (0 ∷ []) (omega arith) (omega arith) (omega arith) refl refl
      (omega arith) exit_run refl refl (omega arith)
