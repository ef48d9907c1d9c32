-- ===== src/Server/Round.antt =====
-- Rounds of `run_server`: one client speaks, the child ends, or select(2) fails.
use libvoyeur.Common.{
  ℕ, zero, suc, ◌+◌, ◌/◌, ◌%◌, ◌<◌, ◌≡◌, ◌≢◌, refl, ap, ◌∙◌, true, false, Option, none, some, List,
  ◌++◌, arith, M, ◌>>=◌, >>=-some, length, Bool-cases, inl, inr, ◌==◌, if◌then◌else◌,
}
use libvoyeur.Kernel.{other_errno, Kernel, View, IsReliable}
use libvoyeur.Net.{success, voyeur_read_int_into}
use libvoyeur.Net.Stream.{HasRead}
use libvoyeur.Net.Values.{int_bytes, IsInt, read_int_into-Reads}
use libvoyeur.Net.Connect.{close_socket_lem}
use libvoyeur.Event.{Context}
use libvoyeur.Event.Handle.{Call, handle_message}
use libvoyeur.Server.{
  FdSet, fd_clr, fd_setsize, selected, select_failed, ServerCalls, Serving, log_call, serve_fd,
  for_fds, after_select, serve, close_straggler, exit_status, finish_server,
}
use libvoyeur.Server.Loop.{
  serve_running, serve_round, serve_exited, only, no_fd, serve_fd_client, serve_fd_child,
  child_served, client_answered,
}

module _ {K : Kernel} {V : View K} (L : IsReliable V) (fuel : ℕ) (C : ServerCalls K)
    (context : Context) (server_sock child_pipe_output : ℕ) where
  -- A round of `run_server` in which select(2) finds only one client ready, and `handle_message`
  -- reads a whole event from it, appends the call of the callback, if one was made, to the earlier
  -- ones, keeps every descriptor, leaves what follows the event on the stream, and goes on with the
  -- next round.
  pub serve_message :
      (rounds fd : ℕ) (st : Serving) (made : Option Call) (rest : List ℕ) (s s' : K.State)
      → st.child_exited ≡ false
      → fd < fd_setsize
      → fd ≢ server_sock
      → fd ≢ child_pipe_output
      → C.select st.active s ≡ (selected (only fd) no_fd, s')
      → HasRead V fd s' rest (success, made) (handle_message K fuel context fd s')
      → (t : K.State) × (V.incoming t fd ≡ rest)
        × (serve K fuel C context server_sock child_pipe_output (suc rounds) st s
            ≡ serve K fuel C context server_sock child_pipe_output rounds
                (record st { calls = log_call made st.calls })
                t)
  serve_message rounds fd st made rest s s' running lt ns nc sel (t, e, left, u, d) =
      let answered : serve_fd K fuel C context server_sock child_pipe_output (only fd) no_fd fd st
            s'
          ≡ some (record st { calls = log_call made st.calls }, t) =
        ap {A = M K.State Serving} (λ m. m s')
          (serve_fd_client K fuel C context server_sock child_pipe_output fd st ns nc)
        ∙ client_answered K fuel C context server_sock child_pipe_output fd st made s' t e in
      (
        t,
        left,
        serve_round K fuel C context server_sock child_pipe_output rounds fd st _ s s' t running lt
            sel answered,
      )

  stragglers_lem :
      (active : FdSet) (left fd : ℕ) (s : K.State)
      → V.delays s < fuel
      → (t : K.State) × (for_fds (close_straggler K fuel active) left fd tt s ≡ some (tt, t))
  unfolding for_fds close_straggler
  stragglers_lem active zero fd s h = (s, refl)
  stragglers_lem active (suc left) fd s h = elim (Bool-cases (active fd)) [
    | inl open_fd ↦
        let (s1, e, _, d) = close_socket_lem L fd fuel s h in
        let (t, e') = stragglers_lem active left (suc fd) s1 (omega arith) in
        (t, rw (open_fd, e, ◌>>=◌) e')
    | inr closed_fd ↦
        let (t, e') = stragglers_lem active left (suc fd) s h in (t, rw (closed_fd, ◌>>=◌) e')
  ]

  -- The value with which `run_server` ends.
  finish_lem :
      (st : Serving) (s : K.State)
      → V.delays s < fuel
      → (t : K.State) × (finish_server K fuel C context server_sock child_pipe_output st s
          ≡ some ((exit_status st.child_status, st.calls), t))
  unfolding finish_server
  finish_lem st s h =
      let (s1, e1, _, d1) = close_socket_lem L server_sock fuel s h in
      let (t, e2) = stragglers_lem st.active fd_setsize 0 s1 (omega arith) in
      (t, rw (e1, ◌>>=◌) (rw (e2, ◌>>=◌) refl))

  -- Where select(2) fails for good while the child is running, `run_server` ends with the calls
  -- made so far and answers 0, the status of a child that ended well. There is fuel for the
  -- interruptions of close(2).
  pub serve_select_failed :
      (rounds : ℕ) (st : Serving) (s s' : K.State)
      → st.child_exited ≡ false
      → st.child_status ≡ 0
      → C.select st.active s ≡ (select_failed other_errno, s')
      → V.delays s' < fuel
      → (t : K.State) × ((serve K fuel C context server_sock child_pipe_output (suc rounds) st
              >>= finish_server K fuel C context server_sock child_pipe_output)
            s
          ≡ some ((some 0, st.calls), t))
  unfolding after_select
  serve_select_failed rounds st s s' running zero_status sel h =
      let (t, e) = finish_lem st s' h in
      let ended : exit_status st.child_status ≡ some 0 =
        ap exit_status zero_status ∙ unfold exit_status in refl in
      (
        t,
        >>=-some (serve K fuel C context server_sock child_pipe_output (suc rounds) st)
              (finish_server K fuel C context server_sock child_pipe_output) s
              (serve_running K fuel C context server_sock child_pipe_output rounds st s running sel)
            ∙ e
            ∙ ap (λ r. some ((r, st.calls), t)) ended,
      )

  -- A round in which only the pipe of the child is ready ends the loop, whatever could be read from it.
  pub child_round :
      (rounds : ℕ) (st : Serving) (status : ℕ) (s s' s1 : K.State)
      → st.child_exited ≡ false
      → child_pipe_output < fd_setsize
      → child_pipe_output ≢ server_sock
      → C.select st.active s ≡ (selected (only child_pipe_output) no_fd, s')
      → voyeur_read_int_into K fuel child_pipe_output st.child_status s' ≡ some (status, s1)
      → V.delays s1 < fuel
      → (t : K.State) × ((serve K fuel C context server_sock child_pipe_output (suc rounds) st
              >>= finish_server K fuel C context server_sock child_pipe_output)
            s
          ≡ some ((exit_status status, st.calls), t))
  child_round rounds st status s s' s1 running lt ns sel e1 d1 =
      let (s2, e2, _, d2) = close_socket_lem L child_pipe_output fuel s1 (omega arith) in
      let st' : Serving = record {
        active = fd_clr child_pipe_output st.active;
        child_exited = true;
        child_status = status;
        calls = st.calls;
      } in
      let served : serve_fd K fuel C context server_sock child_pipe_output (only child_pipe_output)
            no_fd child_pipe_output st s'
          ≡ some (st', s2) =
        ap {A = M K.State Serving} (λ m. m s')
          (serve_fd_child K fuel C context server_sock child_pipe_output st ns)
        ∙ child_served K fuel C context server_sock child_pipe_output st status s' s1 s2 e1 e2 in
      let (t, e) = finish_lem st' s2 (omega arith) in
      (
        t,
        >>=-some (serve K fuel C context server_sock child_pipe_output (suc rounds) st)
              (finish_server K fuel C context server_sock child_pipe_output) s
              (serve_round K fuel C context server_sock child_pipe_output rounds child_pipe_output
                  st st' s s' s2 running lt sel served
                ∙ serve_exited K fuel C context server_sock child_pipe_output rounds st' s2 refl)
            ∙ e,
      )

  -- A round in which only the pipe of the child is ready, and brings the 32-bit status that
  -- waitpid(2) gave, ends the loop; `run_server` then ends, with the calls made so far, and answers
  -- the exit status in it, or -1 where the child was killed. The pipe keeps the promises of a
  -- stream, with fuel for its bytes and each temporary error.
  pub serve_child_exit :
      (rounds : ℕ) (st : Serving) (status : ℕ) (rest : List ℕ) (s s' : K.State)
      → st.child_exited ≡ false
      → child_pipe_output < fd_setsize
      → child_pipe_output ≢ server_sock
      → C.select st.active s ≡ (selected (only child_pipe_output) no_fd, s')
      → IsInt status
      → V.up s' child_pipe_output ≡ true
      → V.incoming s' child_pipe_output ≡ int_bytes status ++ rest
      → length (int_bytes status) + V.delays s' < fuel
      → (t : K.State) × ((serve K fuel C context server_sock child_pipe_output (suc rounds) st
              >>= finish_server K fuel C context server_sock child_pipe_output)
            s
          ≡ some ((if status % 128 == 0 then some (status / 256 % 256) else none, st.calls), t))
  unfolding exit_status
  serve_child_exit rounds st status rest s s' running lt ns sel small up i h =
      let (s1, e1, _, _, d1) =
        (read_int_into-Reads L fuel child_pipe_output st.child_status status small).run s' rest up i
          (omega arith) in
      let (t, e) = child_round rounds st status s s' s1 running lt ns sel e1 (omega arith) in (t, e)
