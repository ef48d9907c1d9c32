-- ===== src/Examples/Threads.antt =====
-- Threads that call `close`.
use libvoyeur.Common.{
  ℕ, ◌+◌, ◌≡◌, refl, true, false, Option, none, some, List, [], ◌∷◌, ◌++◌, arith, ◌>>=◌, length,
}
use libvoyeur.Kernel.Script.{Link, link, link-IsReliable}
use libvoyeur.Options.{voyeur_decode_options}
use libvoyeur.Client.{libvoyeur_opts}
use libvoyeur.Client.Calls.{say_done_lem}
use libvoyeur.Client.Close.{
  CloseStatics, close_statics, init_close, call_next_close, voyeur_cleanup_close, voyeur_close,
}
use libvoyeur.Client.Threads.{
  Shared, Steps, passes_test, forwards, elsewhere, destructs, none_yet, then_step,
}
use libvoyeur.Client.Threads.Shutdown.{locked_call, quiet_end, close_after_end}
use libvoyeur.Event.{voyeur_event_close}
use libvoyeur.Examples.Data.{stream, program, real_close, connected_close}

abbrev nothing_called : Shared Link
nothing_called = record { statics = close_statics; waiting = []; state = stream [] }

abbrev set_up : CloseStatics
set_up = record close_statics {
  initialized = true;
  opts = voyeur_decode_options (program.getenv libvoyeur_opts) voyeur_event_close;
  sock = some 7;
  looked_up = true;
}

one_waits :
    Steps link 99 program real_close nothing_called (record nothing_called { waiting = 3 ∷ [] })
one_waits = then_step (passes_test 3 refl) none_yet

first_set_up : init_close link 99 program close_statics (stream []) ≡ some (set_up, stream [])
unfolding init_close libvoyeur.Net.Connect.voyeur_create_client_socket
    libvoyeur.Net.Connect.connect_socket libvoyeur.Net.Connect.connect_loop
first_set_up = refl

locked_call_example :
    call_next_close link real_close set_up 3 (stream []) ≡ some (real_close 3 (stream []))
locked_call_example =
    locked_call link 99 program real_close 3 nothing_called
      (record nothing_called { waiting = 3 ∷ [] }) set_up (stream []) refl one_waits first_set_up

abbrev with_connection : Shared Link
with_connection = record { statics = connected_close; waiting = []; state = stream [] }

abbrev closed_down : CloseStatics
closed_down = record connected_close { finalized = true; initialized = false; sock = none }

destructor_run :
    (t : Link) × (voyeur_cleanup_close link 99 connected_close (stream []) ≡ some (closed_down, t))
unfolding voyeur_cleanup_close libvoyeur.Common.Bytes.word_bytes
destructor_run =
    let (t, e, _) = say_done_lem link-IsReliable 99 7 (stream []) refl (omega arith) in
    (t, rw (e, ◌>>=◌) refl)

abbrev after_end : Shared Link
after_end = record { statics = closed_down; waiting = []; state = destructor_run.0 }

forwarded : Steps link 99 program real_close after_end after_end
unfolding call_next_close
forwarded = then_step (forwards 5 {retval = 0} {t = destructor_run.0} refl refl) none_yet

quiet_end_example :
    (closed_down.finalized ≡ true) × (closed_down.initialized ≡ false) × (after_end.waiting ≡ [])
quiet_end_example =
    quiet_end link 99 program real_close with_connection after_end closed_down destructor_run.0 refl
      destructor_run.1 forwarded

abbrev ended_first : CloseStatics
ended_first = record close_statics { finalized = true }

first_end : voyeur_cleanup_close link 99 close_statics (stream []) ≡ some (ended_first, stream [])
unfolding voyeur_cleanup_close
first_end = refl

-- Another thread runs, and the destructor once more.
still_ended :
    Steps link 99 program real_close
      (record { statics = ended_first; waiting = []; state = stream [] })
      (record { statics = ended_first; waiting = []; state = stream [] })
unfolding voyeur_cleanup_close
still_ended = then_step (elsewhere (stream [])) (then_step (destructs refl) none_yet)

close_after_end_example : voyeur_close link 99 program real_close 5 ended_first (stream []) ≡ none
close_after_end_example =
    close_after_end link 99 program real_close 5 nothing_called
      (record { statics = ended_first; waiting = []; state = stream [] }) ended_first (stream [])
      refl refl first_end still_ended
