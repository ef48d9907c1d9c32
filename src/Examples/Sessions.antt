-- ===== src/Examples/Sessions.antt =====
-- Runs of a program and its observer, and of `run_server`.
use libvoyeur.Common.{
  ℕ, ◌+◌, ◌≤◌, ◌<◌, ◌≡◌, ◌≢◌, refl, true, false, Option, none, some, List, [], ◌∷◌, ◌++◌, arith,
  length, ◌>>=◌,
}
use libvoyeur.Kernel.Script.{link, link_view, link-IsReliable}
use libvoyeur.Net.{
  Status, success, failure, voyeur_msg_done, do_write, write_loop, after_send, retries_send,
  voyeur_write_msg_type, voyeur_write_event_type, voyeur_write_int, voyeur_write_pid,
  voyeur_write_string, voyeur_write_size, string_length, string_payload, then_write,
}
use libvoyeur.Net.Stream.{HasRead}
use libvoyeur.Net.Values.{int_bytes, IsInt}
use libvoyeur.Event.{voyeur_event_open}
use libvoyeur.Event.Handle.{handle_message}
use libvoyeur.Event.Requested.Opts.{requested}
use libvoyeur.Client.Open.{
  open_ready, voyeur_open, init_open, open_initialized, write_open_event, write_open_cwd,
}
use libvoyeur.Client.Close.{
  voyeur_close, init_close, close_initialized, call_next_close, write_close_event,
}
use libvoyeur.Client.Calls.{open_event, close_event}
use libvoyeur.Server.Session.{observed_open, observed_close, open_session, close_session}
use libvoyeur.Text.{codes}
use libvoyeur.Examples.Data.{
  stream, sent_stream, program, watching, watching-HasByteOpts, real_open_calls, real_close,
  connected_close,
}

abbrev opened_bytes : List ℕ
opened_bytes = open_event {K = link} program real_open_calls 1 (some (codes "f")) 64 420 3

open_run :
    voyeur_open link 99 program real_open_calls
      (some (codes "f"))
      64
      420
      (open_ready (requested watching voyeur_event_open) (some 7))
      (stream [])
    ≡ some ((3, open_ready 1 (some 7)), sent_stream opened_bytes)
unfolding voyeur_open init_open open_initialized write_open_event write_open_cwd voyeur_write_string
    string_length string_payload then_write voyeur_write_size do_write write_loop after_send
    retries_send voyeur_write_msg_type voyeur_write_event_type voyeur_write_int voyeur_write_pid
    libvoyeur.Common.Bytes.word_bytes libvoyeur.Common.Bytes.strnlen libvoyeur.Options.has_flag
    libvoyeur.Options.voyeur_decode_options libvoyeur.Options.voyeur_encode_options
    libvoyeur.Event.Requested.voyeur_requested_opts libvoyeur.Protocol.message_bytes
    libvoyeur.Protocol.open_body libvoyeur.Protocol.bytes_if libvoyeur.Net.Values.string_bytes
open_run = refl

open_session_example :
    HasRead link_view 5
      (stream (opened_bytes ++ (0 ∷ [])))
      (0 ∷ [])
      (success, observed_open watching program real_open_calls (some (codes "f")) 64 420 3)
      (handle_message link 99 watching 5 (stream (opened_bytes ++ (0 ∷ []))))
unfolding libvoyeur.Common.Bytes.word_bytes libvoyeur.Common.Bytes.strnlen
    libvoyeur.Options.has_flag libvoyeur.Options.voyeur_decode_options
    libvoyeur.Options.voyeur_encode_options libvoyeur.Event.Requested.voyeur_requested_opts
    libvoyeur.Protocol.message_bytes libvoyeur.Protocol.open_body libvoyeur.Protocol.bytes_if
    libvoyeur.Net.Values.string_bytes
open_session_example =
    open_session link-IsReliable link-IsReliable 99 99 7 5 watching program real_open_calls
      (some (codes "f")) 64 420 (stream []) (sent_stream opened_bytes) (3, open_ready 1 (some 7))
      (stream (opened_bytes ++ (0 ∷ []))) (0 ∷ []) watching-HasByteOpts (omega arith) (omega arith)
      (omega arith) (omega arith) (omega arith) (omega arith) (refl, refl, omega arith)
      (omega arith) open_run refl refl (omega arith)

abbrev closed_bytes : List ℕ
closed_bytes = close_event program 3 0

close_run :
    voyeur_close link 99 program real_close 3 connected_close (stream [])
    ≡ some ((0, connected_close), sent_stream closed_bytes)
unfolding voyeur_close init_close close_initialized call_next_close write_close_event do_write
    write_loop after_send retries_send voyeur_write_msg_type voyeur_write_event_type
    voyeur_write_int voyeur_write_pid libvoyeur.Common.Bytes.word_bytes
    libvoyeur.Protocol.message_bytes libvoyeur.Protocol.close_body
close_run = refl

close_session_example :
    HasRead link_view 5
      (stream (closed_bytes ++ (0 ∷ [])))
      (0 ∷ [])
      (success, observed_close watching program 3 0)
      (handle_message link 99 watching 5 (stream (closed_bytes ++ (0 ∷ []))))
unfolding libvoyeur.Common.Bytes.word_bytes libvoyeur.Protocol.message_bytes
    libvoyeur.Protocol.close_body
close_session_example =
    close_session link-IsReliable link-IsReliable 99 99 7 5 watching program real_close
      connected_close 3 (stream []) (sent_stream closed_bytes) (0, connected_close)
      (stream (closed_bytes ++ (0 ∷ []))) (0 ∷ []) refl refl refl refl (omega arith) (omega arith)
      (omega arith) (refl, refl, omega arith) (omega arith) close_run refl refl (omega arith)
