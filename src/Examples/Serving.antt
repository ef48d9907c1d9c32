-- ===== src/Examples/Serving.antt =====
-- A whole run of `run_server`, and clients that go away or are not understood.
use libvoyeur.Common.{
  ℕ, ◌+◌, ◌≤◌, ◌<◌, ◌≡◌, ◌≢◌, refl, sym, ap, ◌∙◌, true, false, Bool, Option, none, some, List, [],
  ◌∷◌, ◌++◌, arith, length, take, drop, take-append-drop, ltb, ◌==◌, ==_iff, Bool-cases, inl, inr,
  if◌then◌else◌,
}
use libvoyeur.Kernel.{other_errno}
use libvoyeur.Kernel.Script.{Link, link, link_view, link-IsReliable}
use libvoyeur.Net.{Status, success, failure}
use libvoyeur.Net.Stream.{Reads}
use libvoyeur.Net.Values.{int_bytes}
use libvoyeur.Event.{Context}
use libvoyeur.Event.Handle.{Call, handle_message}
use libvoyeur.Event.Any.{Event, close_event, event_bytes, call_of}
use libvoyeur.Event.Truncated.{truncated_event, unknown_types}
use libvoyeur.Protocol.{message_bytes}
use libvoyeur.Server.{
  FdSet, ServerCalls, SelectOutcome, selected, select_failed, Serving, serving_start, run_server,
  fd_set, log_call,
}
use libvoyeur.Server.Loop.{only, no_fd}
use libvoyeur.Server.Trace.{Rounds, over, spoke, connected}
use libvoyeur.Server.Whole.{run_server-Rounds}
use libvoyeur.Server.Refine.{IsSelect, Promised, run_server-Acts}
use libvoyeur.Examples.Data.{stream, sent_stream, watching}

abbrev pub close_said : Event
close_said = close_event 3 0 41

abbrev cut_front : List ℕ
cut_front = take 13 (event_bytes watching close_said)

truncated_event_example :
    (t u : Link) × (handle_message link 99 watching 5 (stream cut_front)
      ≡ some ((if ltb (length cut_front) 8 then failure else success, none), t))
    × (handle_message link 99 watching 5 t ≡ some ((failure, none), u))
unfolding libvoyeur.Common.Bytes.word_bytes message_bytes libvoyeur.Protocol.close_body
truncated_event_example =
    truncated_event link-IsReliable 99 5 watching close_said (stream cut_front) cut_front
      (drop 13 (event_bytes watching close_said)) (omega arith, omega arith, omega arith)
      (sym (take-append-drop 13 (event_bytes watching close_said))) (omega arith) refl refl
      (omega arith)

unknown_types_example :
    Reads link_view 99 5 (int_bytes 7) (failure, none) (handle_message link 99 watching 5)
    × Reads link_view 99 5 (message_bytes 7 []) (success, none) (handle_message link 99 watching 5)
unknown_types_example = unknown_types link-IsReliable 99 5 watching 7 (omega arith) (omega arith)

-- A descriptor is ready if it is watched; otherwise select(2) fails.
abbrev answer : ℕ → FdSet → Link → SelectOutcome × Link
answer fd active s =
    if active fd then (selected (only fd) no_fd, s) else (select_failed other_errno, s)

-- The server's socket 7 is ready until a client has come, the client 5 as long as there is more than the
-- status of the child, and then the child's pipe 4.
abbrev ready : FdSet → Link → ℕ
ready active s = if active 5 then (if ltb 4 (length s.incoming) then 5 else 4) else 7

abbrev pub one_client : ServerCalls link
one_client = record {
  select = λ active s. answer (ready active s) active s;
  accept = λ fd s. (some 5, s);
}

only-active : (p fd : ℕ) (active : FdSet) → active p ≡ true → only p fd ≡ true → active fd ≡ true
only-active p fd active watched there = elim (Bool-cases (fd == p)) [
  | inl same ↦ ap active ((==_iff fd p).0 same) ∙ watched
  | inr other ↦ let clash : ◌≡◌ {A = Bool} false true = rw other at there in cc
]

answer_law :
    (p : ℕ) (active : FdSet) (s : Link) (reads errors : FdSet) (t : Link) (fd : ℕ)
    → answer p active s ≡ (selected reads errors, t)
    → (reads fd ≡ true → active fd ≡ true) × (errors fd ≡ true → active fd ≡ true)
answer_law p active s reads errors t fd e = elim (Bool-cases (active p)) [
  | inl watched ↦
      let e' : ◌≡◌ {A = SelectOutcome × Link} (selected (only p) no_fd, s)
          (selected reads errors, t) =
        rw watched at e in
      let r : only p ≡ reads = cc in
      let n : no_fd ≡ errors = cc in
      (
        λ w. only-active p fd active watched (ap (λ set. set fd) r ∙ w),
        λ w. let clash : ◌≡◌ {A = Bool} false true = ap (λ set. set fd) n ∙ w in cc,
      )
  | inr idle ↦
      let e' : ◌≡◌ {A = SelectOutcome × Link} (select_failed other_errno, s)
          (selected reads errors, t) =
        rw idle at e in
      cc
]

one_client-IsSelect : IsSelect one_client
one_client-IsSelect = record {
  select_law =
      λ active s reads errors t fd e. answer_law (ready active s) active s reads errors t fd e;
}

-- The status of the child is 1280, which is the exit status 5.
abbrev pub at_start : Link
at_start = stream (event_bytes watching close_said ++ int_bytes 1280)

abbrev at_end : Link
at_end = record (sent_stream []) { incoming = int_bytes 1280 }

abbrev made_calls : List Call
made_calls = log_call (call_of watching close_said) [] ++ []

abbrev serving : Serving
serving = serving_start link 99 one_client watching 7 4

heard :
    handle_message link 99 watching 5 at_start
    ≡ some ((success, call_of watching close_said), at_end)
unfolding handle_message libvoyeur.Event.Handle.after_msg_type libvoyeur.Event.Handle.dispatch
    libvoyeur.Event.Handle.voyeur_handle_event libvoyeur.Event.Handle.handle_close
    libvoyeur.Net.voyeur_read_msg_type libvoyeur.Net.voyeur_read_event_type
    libvoyeur.Net.voyeur_read_int libvoyeur.Net.voyeur_read_pid libvoyeur.Net.read_word
    libvoyeur.Net.do_read libvoyeur.Net.do_read_stored libvoyeur.Net.filled libvoyeur.Net.read_loop
    libvoyeur.Net.after_read libvoyeur.Net.retries_read libvoyeur.Common.Bytes.word_bytes
    libvoyeur.Common.Bytes.of_bytes libvoyeur.Protocol.message_bytes libvoyeur.Protocol.close_body
heard = refl

pub speaking :
    one_client.select (fd_set 5 serving.active) at_start ≡ (selected (only 5) no_fd, at_start)
unfolding libvoyeur.Common.Bytes.word_bytes libvoyeur.Protocol.message_bytes
    libvoyeur.Protocol.close_body
speaking = refl

child_over : one_client.select (fd_set 5 serving.active) at_end ≡ (selected (only 4) no_fd, at_end)
unfolding libvoyeur.Common.Bytes.word_bytes
child_over = refl

abbrev served : Serving
served = record serving {
  active = fd_set 5 serving.active;
  calls = log_call (call_of watching close_said) [];
}

both-Rounds : Rounds link 99 one_client watching 7 4 2 serving at_start made_calls served at_end
both-Rounds =
    connected (omega arith) refl refl (omega arith)
      (spoke (omega arith) (λ e. omega arith) (λ e. omega arith) speaking heard over)

whole_run :
    (t : Link) × (run_server link 99 one_client watching 7 4 10 at_start
      ≡ some ((some 5, made_calls), t))
unfolding libvoyeur.Common.Bytes.word_bytes
whole_run =
    run_server-Rounds link-IsReliable 99 one_client watching 7 4 7 1280 [] at_start at_end at_end
      both-Rounds (omega arith) (omega arith) (λ e. omega arith) child_over (omega arith) refl refl
      (omega arith)

run_server-Acts_example : Promised 99 one_client watching 7 4 at_start (some 5) made_calls
run_server-Acts_example =
    run_server-Acts 99 one_client watching 7 4 10 at_start whole_run.0 (some 5) made_calls
      one_client-IsSelect whole_run.1
