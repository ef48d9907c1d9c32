-- ===== src/Server/Child.antt =====
-- The status of the child: from the thread that waits for it, over the pipe, to `run_server`.
use libvoyeur.Server.Setup.{waitpid_thread}
use libvoyeur.Common.{
  ℕ, zero, suc, ◌<◌, ◌≡◌, ◌≢◌, refl, sym, ap, ◌∙◌, true, false, some, [], ◌++◌, arith, ◌>>=◌,
  append-nil, drop-append_length,
}
use libvoyeur.Common.Bytes.{word_bytes, of_bytes}
use libvoyeur.Kernel.{Kernel, View, IsReliable, other_errno, send_failed}
use libvoyeur.Net.{
  failure, do_write, write_loop, after_send, retries_send, voyeur_write_int, voyeur_read_int_into,
  overwritten, do_read_stored, int_size,
}
use libvoyeur.Net.Stream.{HasRead, handed_over}
use libvoyeur.Net.Read.{do_read_stored_eof}
use libvoyeur.Net.Connect.{close_socket_lem}
use libvoyeur.Net.Values.{int_bytes}
use libvoyeur.Event.{Context}
use libvoyeur.Server.{selected, fd_setsize, ServerCalls, Serving, exit_status, serve, finish_server}
use libvoyeur.Server.Loop.{only, no_fd}
use libvoyeur.Server.Round.{child_round}

-- Where send(2) refuses the descriptor, nothing is written.
write_refused :
    (K : Kernel) (fuel fd status : ℕ) (p q : K.State)
    → K.send fd (int_bytes status) p ≡ (send_failed other_errno, q)
    → 0 < fuel
    → voyeur_write_int K fuel fd status p ≡ some (failure, q)
unfolding voyeur_write_int do_write write_loop after_send retries_send word_bytes
write_refused K zero fd status p q e pos = absurd (omega arith)
write_refused K (suc fuel) fd status p q e pos = rw e refl

-- A stream that ends at once leaves a variable that is 0 alone.
read_int_into-eof :
    {K : Kernel} {V : View K} (L : IsReliable V) (fuel fd : ℕ) (s : K.State)
    → V.up s fd ≡ true
    → V.incoming s fd ≡ []
    → V.delays s < fuel
    → HasRead V fd s [] 0 (voyeur_read_int_into K fuel fd 0 s)
unfolding voyeur_read_int_into overwritten word_bytes of_bytes
read_int_into-eof {K = K} L fuel fd s u i h =
    let (t, e, left, u', d) =
      do_read_stored_eof L fd fuel int_size s u (omega arith) (rw i (omega arith))
        (rw i (omega arith)) in
    let e' : do_read_stored K fuel fd int_size s ≡ some ((failure, []), t) =
      e ∙ ap (λ l. some ((failure, l), t)) i in
    (t, rw (e', ◌>>=◌) refl, left, u', d)

module _ {K K' : Kernel} {V : View K} {V' : View K'} (L : IsReliable V) (L' : IsReliable V')
    (fuel fuel' input : ℕ) where
  thread_silent :
      (status : ℕ) (p q r : K'.State)
      → K'.send input (int_bytes status) p ≡ (send_failed other_errno, q)
      → V'.sent q input ≡ V'.sent p input
      → V'.delays q < fuel'
      → waitpid_thread K' fuel' input status p ≡ some (tt, r)
      → handed_over V' input p r ≡ []
  unfolding waitpid_thread
  thread_silent status p q r refused kept h e =
      let (r', e', sent, d) = close_socket_lem L' input fuel' q h in
      let run : waitpid_thread K' fuel' input status p ≡ some (tt, r') =
        rw (write_refused K' fuel' input status p q refused (omega arith), ◌>>=◌) e' in
      let same : r ≡ r' = cc in
      let bytes : V'.sent r' input ≡ V'.sent p input ++ [] = sent ∙ kept ∙ sym (append-nil _) in
      rw (same, bytes) (drop-append_length (V'.sent p input) [])

  -- Where send(2) refuses the pipe of the thread that waits for the child, with an error that is
  -- not temporary and with nothing written, as it refuses what is not a socket, then whatever
  -- status waitpid(2) gave, `run_server`, woken by the pipe that brings what the thread handed
  -- over, answers 0, with the calls made so far. Before that the child was not known to have exited
  -- and its status was 0. There is fuel for each temporary error and the calls of close(2).
  pub child_status_lost :
      (C : ServerCalls K) (context : Context) (server_sock child_pipe_output rounds status : ℕ)
      (st : Serving) (p q r : K'.State) (s s' : K.State)
      → K'.send input (int_bytes status) p ≡ (send_failed other_errno, q)
      → V'.sent q input ≡ V'.sent p input
      → V'.delays q < fuel'
      → waitpid_thread K' fuel' input status p ≡ some (tt, r)
      → st.child_exited ≡ false
      → st.child_status ≡ 0
      → child_pipe_output < fd_setsize
      → child_pipe_output ≢ server_sock
      → C.select st.active s ≡ (selected (only child_pipe_output) no_fd, s')
      → V.up s' child_pipe_output ≡ true
      → V.incoming s' child_pipe_output ≡ handed_over V' input p r
      → V.delays s' < fuel
      → (t : K.State) × ((serve K fuel C context server_sock child_pipe_output (suc rounds) st
              >>= finish_server K fuel C context server_sock child_pipe_output)
            s
          ≡ some ((some 0, st.calls), t))
  child_status_lost C context server_sock child_pipe_output rounds status st p q r s s' refused kept
        h e running zero_status lt ns sel up i h' =
      let empty : V.incoming s' child_pipe_output ≡ [] =
        i ∙ thread_silent status p q r refused kept h e in
      let (s1, e1, _, _, d) = read_int_into-eof L fuel child_pipe_output s' up empty h' in
      let (t, ended) =
        child_round L fuel C context server_sock child_pipe_output rounds st 0 s s' s1 running lt ns
          sel (ap (λ n. voyeur_read_int_into K fuel child_pipe_output n s') zero_status ∙ e1)
          (omega arith) in
      let good : exit_status 0 ≡ some 0 = unfold exit_status in refl in
      (t, ended ∙ ap (λ a. some ((a, st.calls), t)) good)
