-- ===== src/Server/Whole.antt =====
-- A whole run of `run_server`: any rounds with clients, and then the end of the child.
use libvoyeur.Common.{
  ℕ, suc, Option, ◌>>=◌, lt→ltb, ◌+◌, ◌/◌, ◌%◌, ◌<◌, ◌≡◌, ◌≢◌, refl, ap, ◌∙◌, true, none, some,
  List, ◌++◌, length, ◌==◌, if◌then◌else◌,
}
use libvoyeur.Kernel.{Kernel, View, IsReliable}
use libvoyeur.Net.Values.{int_bytes, IsInt}
use libvoyeur.Event.{Context}
use libvoyeur.Event.Handle.{Call}
use libvoyeur.Server.{
  fd_setsize, selected, ServerCalls, Serving, serve, finish_server, serving_start, run_server,
}
use libvoyeur.Server.Loop.{only, no_fd}
use libvoyeur.Server.Round.{serve_child_exit}
use libvoyeur.Server.Trace.{Rounds, serve-Rounds}

module _ {K : Kernel} {V : View K} (L : IsReliable V) (fuel : ℕ) (C : ServerCalls K)
    (context : Context) (server_sock child_pipe_output : ℕ) where
  -- Rounds, and then what ends the loop and the server, make a whole run, with the calls that the rounds
  -- made.
  pub run_server-ended :
      {n : ℕ} {st : Serving} {calls : List Call} (rounds : ℕ) (code : Option ℕ) (s s1 t : K.State)
      → Rounds K fuel C context server_sock child_pipe_output n
          (serving_start K fuel C context server_sock child_pipe_output)
          s
          calls
          st
          s1
      → server_sock < fd_setsize
      → child_pipe_output < fd_setsize
      → (serve K fuel C context server_sock child_pipe_output rounds st
            >>= finish_server K fuel C context server_sock child_pipe_output)
          s1
        ≡ some ((code, st.calls), t)
      → run_server K fuel C context server_sock child_pipe_output (n + rounds) s
        ≡ some ((code, calls), t)
  unfolding run_server
  run_server-ended {n} {st} {calls} rounds code s s1 t trace lt_sock lt_pipe ended =
      let (led, log, running, _) =
        serve-Rounds fuel C context server_sock child_pipe_output trace rounds refl in
      rw (lt→ltb _ _ lt_sock, lt→ltb _ _ lt_pipe)
        (ap
            (λ o. elim o [
              | none ↦ none
              | some (a, s') ↦ finish_server K fuel C context server_sock child_pipe_output a s'
            ])
            led
          ∙ ended
          ∙ ap (λ l. some ((code, l), t)) log)

  -- Rounds, and then a round in which the pipe brings the child's status, make a whole run, which ends with
  -- the exit status and the calls that the rounds made.
  pub run_server-Rounds :
      {n : ℕ} {st : Serving} {calls : List Call} (rounds status : ℕ) (rest : List ℕ)
      (s s1 s2 : K.State)
      → Rounds K fuel C context server_sock child_pipe_output n
          (serving_start K fuel C context server_sock child_pipe_output)
          s
          calls
          st
          s1
      → server_sock < fd_setsize
      → child_pipe_output < fd_setsize
      → child_pipe_output ≢ server_sock
      → C.select st.active s1 ≡ (selected (only child_pipe_output) no_fd, s2)
      → IsInt status
      → V.up s2 child_pipe_output ≡ true
      → V.incoming s2 child_pipe_output ≡ int_bytes status ++ rest
      → length (int_bytes status) + V.delays s2 < fuel
      → (t : K.State) × (run_server K fuel C context server_sock child_pipe_output
            (n + suc rounds)
            s
          ≡ some ((if status % 128 == 0 then some (status / 256 % 256) else none, calls), t))
  run_server-Rounds {n} {st} {calls} rounds status rest s s1 s2 trace lt_sock lt ns sel small up i
        h =
      let (led, log, running, _) =
        serve-Rounds fuel C context server_sock child_pipe_output trace (suc rounds) refl in
      let (t, e) =
        serve_child_exit L fuel C context server_sock child_pipe_output rounds st status rest s1 s2
          running lt ns sel small up i h in
      (t, run_server-ended (suc rounds) _ s s1 t trace lt_sock lt e)
