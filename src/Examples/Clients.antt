-- ===== src/Examples/Clients.antt =====
-- A client that reports two events.
use libvoyeur.Common.{
  ℕ, suc, ◌+◌, ◌≤◌, ◌<◌, ◌≡◌, ◌≢◌, refl, true, false, Option, none, some, List, [], ◌∷◌, ◌++◌,
  arith, length, All, if◌then◌else◌,
}
use libvoyeur.Text.{codes}
use libvoyeur.Kernel.{other_errno}
use libvoyeur.Kernel.Script.{Link, link, link-IsReliable}
use libvoyeur.Event.Any.{Event, IsSound, open_event, close_event}
use libvoyeur.Server.{fd_set, fd_clr, ServerCalls, selected, select_failed, Serving, serve}
use libvoyeur.Server.Loop.{only, no_fd}
use libvoyeur.Server.Session.Events.{session_bytes, session_calls, IsOnlyClient, client_session}
use libvoyeur.Examples.Data.{stream, watching}

-- The client 5 is always ready.
abbrev fifth : ServerCalls link
fifth = record {
  select =
      λ active s. if active 5 then (selected (only 5) no_fd, s) else (select_failed other_errno, s);
  accept = λ fd s. (none, s);
}

abbrev two_events : List Event
two_events = open_event (some (codes "/f")) 0 0 3 (some (codes "/w")) 41 ∷ close_event 3 0 41 ∷ []

two_events-IsSound : All IsSound two_events
two_events-IsSound = (omega arith, (omega arith, tt))

abbrev with_client : Serving
with_client = record {
  active = fd_set 5 (fd_set 4 (fd_set 3 (λ n. false)));
  child_exited = false;
  child_status = 0;
  calls = [];
}

fifth-IsOnlyClient : IsOnlyClient fifth 3 4 5
fifth-IsOnlyClient = record {
  in_range = omega arith;
  not_server = λ e. omega arith;
  not_pipe = λ e. omega arith;
  ready_law = λ active s w. rw w refl;
}

client_session_example :
    (st' : Serving) × (s' : Link) × (serve link 99 fifth watching 3 4
        (suc (length two_events) + 8)
        with_client
        (stream (session_bytes watching two_events ++ []))
      ≡ serve link 99 fifth watching 3 4 8 st' s')
    × (st'.calls ≡ [] ++ session_calls watching two_events)
    × (st'.active ≡ fd_clr 5 with_client.active)
    × (st'.child_exited ≡ false)
unfolding libvoyeur.Common.Bytes.word_bytes libvoyeur.Protocol.message_bytes
    libvoyeur.Protocol.open_body libvoyeur.Protocol.close_body libvoyeur.Protocol.bytes_if
    libvoyeur.Net.Values.string_bytes libvoyeur.Options.has_flag
client_session_example =
    client_session link-IsReliable 99 fifth watching 3 4 5 two_events [] with_client
      (stream (session_bytes watching two_events ++ [])) 8 fifth-IsOnlyClient two_events-IsSound
      refl refl refl refl (omega arith)
