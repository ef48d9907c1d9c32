-- ===== src/Server/Session/Events.antt =====
-- A client that reports any number of events and then says that it is done.
use libvoyeur.Common.{
  ℕ, suc, ◌+◌, ◌<◌, ◌≡◌, ◌≢◌, refl, ◌∙◌, true, false, List, [], ◌∷◌, ◌++◌, arith, All, length,
  length-append, append_assoc,
}
use libvoyeur.Kernel.{Kernel, View, IsReliable}
use libvoyeur.Net.{voyeur_msg_done}
use libvoyeur.Net.Values.{int_bytes}
use libvoyeur.Net.Connect.{close_socket_lem}
use libvoyeur.Event.{Context}
use libvoyeur.Event.Handle.{Call}
use libvoyeur.Event.Message.{handle_message_done}
use libvoyeur.Event.Any.{Event, IsSound, event_bytes, call_of, handle_message-Event}
use libvoyeur.Server.{FdSet, fd_clr, fd_setsize, selected, ServerCalls, Serving, log_call, serve}
use libvoyeur.Server.Loop.{only, no_fd}
use libvoyeur.Server.Trace.{Rounds, over, spoke, hung_up, serve-Rounds}

-- What such a client sends, and the calls that it is to lead to.
abbrev pub session_bytes : Context → List Event → List ℕ
session_bytes context [] = int_bytes voyeur_msg_done
session_bytes context (ev ∷ evs) = event_bytes context ev ++ session_bytes context evs

abbrev pub session_calls : Context → List Event → List Call
session_calls context [] = []
session_calls context (ev ∷ evs) = log_call (call_of context ev) [] ++ session_calls context evs

module _ {K : Kernel} (C : ServerCalls K) (server_sock child_pipe_output fd : ℕ) where
  -- The client is a descriptor of its own, and select(2) always finds it ready, and it only, as long as
  -- it is watched.
  pub record IsOnlyClient : Type 0 where
    pub in_range : fd < fd_setsize
    pub not_server : fd ≢ server_sock
    pub not_pipe : fd ≢ child_pipe_output
    pub ready_law :
        (active : FdSet) (s : K.State)
        → active fd ≡ true
        → C.select active s ≡ (selected (only fd) no_fd, s)

module _ {K : Kernel} {V : View K} (L : IsReliable V) (fuel : ℕ) (C : ServerCalls K)
    (context : Context) (server_sock child_pipe_output fd : ℕ) where
  session-Rounds :
      (evs : List Event) (rest : List ℕ) (st : Serving) (s : K.State)
      → IsOnlyClient C server_sock child_pipe_output fd
      → All IsSound evs
      → st.active fd ≡ true
      → V.up s fd ≡ true
      → V.incoming s fd ≡ session_bytes context evs ++ rest
      → length (session_bytes context evs) + V.delays s < fuel
      → (st' : Serving) × (s' : K.State) × Rounds K fuel C context server_sock child_pipe_output
          (suc (length evs))
          st
          s
          (session_calls context evs)
          st'
          s'
        × (st'.active ≡ fd_clr fd st.active)
  session-Rounds [] rest st s c sound watched u i h =
      let (t, e, left, u', d) =
        (handle_message_done L fuel fd context).run s rest u i (omega arith) in
      let (t', closed, _, _) = close_socket_lem L fd fuel t (omega arith) in
      (
        record st { active = fd_clr fd st.active },
        t',
        hung_up c.in_range c.not_server c.not_pipe (c.ready_law st.active s watched) e closed over,
        refl,
      )
  session-Rounds (ev ∷ evs) rest st s c (sound, sounds) watched u i h =
      let len = length-append (event_bytes context ev) (session_bytes context evs) in
      let (t, e, left, u', d) =
        (handle_message-Event L fuel fd context ev sound).run s (session_bytes context evs ++ rest)
          u (i ∙ append_assoc (event_bytes context ev) (session_bytes context evs) rest)
          (omega arith) in
      let (st', s', trace, active) =
        session-Rounds evs rest (record st { calls = log_call (call_of context ev) st.calls }) t c
          sounds watched u' left (omega arith) in
      (
        st',
        s',
        spoke c.in_range c.not_server c.not_pipe (c.ready_law st.active s watched) e trace,
        active,
      )

  -- A client that is watched and sends any number of events of the four types, whose numbers fit
  -- their types and which have the options that the observer asked for, and then the end message,
  -- is served by the loop of `run_server` in one round for each event and one more, while the child
  -- runs: the calls of callbacks that the events are to lead to are appended to the earlier ones,
  -- in order, and the client is not watched any more. Its descriptor fits an `fd_set` and is
  -- neither the server's socket nor the child's pipe, select(2) finds it ready, and it only, as
  -- long as it is watched, and its stream keeps the promises of a stream socket, with more fuel
  -- than bytes and temporary errors.
  pub client_session :
      (evs : List Event) (rest : List ℕ) (st : Serving) (s : K.State) (rounds : ℕ)
      → IsOnlyClient C server_sock child_pipe_output fd
      → All IsSound evs
      → st.active fd ≡ true
      → st.child_exited ≡ false
      → V.up s fd ≡ true
      → V.incoming s fd ≡ session_bytes context evs ++ rest
      → length (session_bytes context evs) + V.delays s < fuel
      → (st' : Serving) × (s' : K.State) × (serve K fuel C context server_sock child_pipe_output
            (suc (length evs) + rounds)
            st
            s
          ≡ serve K fuel C context server_sock child_pipe_output rounds st' s')
        × (st'.calls ≡ st.calls ++ session_calls context evs)
        × (st'.active ≡ fd_clr fd st.active)
        × (st'.child_exited ≡ false)
  client_session evs rest st s rounds c sounds watched running u i h =
      let (st', s', trace, active) = session-Rounds evs rest st s c sounds watched u i h in
      let (e, log, still, _) =
        serve-Rounds fuel C context server_sock child_pipe_output trace rounds running in
      (st', s', e, log, active, still)
