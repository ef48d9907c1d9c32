-- ===== src/Server/Trace.antt =====
-- Any sequence of rounds of `run_server` in which clients come, speak and go, while the child runs.
use libvoyeur.Common.{
  ℕ, suc, ◌+◌, ◌<◌, ◌≡◌, ◌≢◌, refl, sym, ap, ◌∙◌, false, Option, none, some, List, [], ◌++◌, arith,
  M, ◌>>=◌, lt→ltb, append-nil, append_assoc,
}
use libvoyeur.Kernel.{Kernel, eintr}
use libvoyeur.Net.{success, failure}
use libvoyeur.Net.Connect.{voyeur_close_socket}
use libvoyeur.Event.{Context}
use libvoyeur.Event.Handle.{Call, handle_message}
use libvoyeur.Server.{
  fd_set, fd_clr, fd_setsize, selected, select_failed, ServerCalls, Serving, log_call, drop_fd,
  serve_accept, watch, after_message, serve_client, serve_fd, after_select, serve,
}
use libvoyeur.Server.Loop.{
  only, no_fd, serve_fd_client, client_answered, serve_running, serve_round,
}

module _ (K : Kernel) (fuel : ℕ) (C : ServerCalls K) (context : Context)
    (server_sock child_pipe_output : ℕ) where
  -- So many rounds lead from one state to another, with these calls of callbacks. In each, select(2) is
  -- interrupted, or finds one descriptor ready: a client that says a whole event, a client that is to be
  -- dropped, or the server's socket with a new client.
  pub data Rounds : ℕ → Serving → K.State → List Call → Serving → K.State → Type 0 where
    over : {st : Serving} {s : K.State} → Rounds 0 st s [] st s
    interrupted :
        {n : ℕ} {st st' : Serving} {s s1 s' : K.State} {calls : List Call}
        → C.select st.active s ≡ (select_failed eintr, s1)
        → Rounds n st s1 calls st' s'
        → Rounds (suc n) st s calls st' s'
    spoke :
        {n fd : ℕ} {made : Option Call} {st st' : Serving} {s s1 t s' : K.State} {calls : List Call}
        → fd < fd_setsize
        → fd ≢ server_sock
        → fd ≢ child_pipe_output
        → C.select st.active s ≡ (selected (only fd) no_fd, s1)
        → handle_message K fuel context fd s1 ≡ some ((success, made), t)
        → Rounds n (record st { calls = log_call made st.calls }) t calls st' s'
        → Rounds (suc n) st s (log_call made [] ++ calls) st' s'
    hung_up :
        {n fd : ℕ} {st st' : Serving} {s s1 t t' s' : K.State} {calls : List Call}
        → fd < fd_setsize
        → fd ≢ server_sock
        → fd ≢ child_pipe_output
        → C.select st.active s ≡ (selected (only fd) no_fd, s1)
        → handle_message K fuel context fd s1 ≡ some ((failure, none), t)
        → voyeur_close_socket K fuel fd t ≡ some (tt, t')
        → Rounds n (record st { active = fd_clr fd st.active }) t' calls st' s'
        → Rounds (suc n) st s calls st' s'
    connected :
        {n fd : ℕ} {st st' : Serving} {s s1 t s' : K.State} {calls : List Call}
        → server_sock < fd_setsize
        → C.select st.active s ≡ (selected (only server_sock) no_fd, s1)
        → C.accept server_sock s1 ≡ (some fd, t)
        → fd < fd_setsize
        → Rounds n (record st { active = fd_set fd st.active }) t calls st' s'
        → Rounds (suc n) st s calls st' s'

log_call-append :
    (made : Option Call) (calls : List Call) → log_call made calls ≡ calls ++ log_call made []
unfolding log_call
log_call-append none calls = sym (append-nil calls)
log_call-append (some made) calls = refl

module _ {K : Kernel} (fuel : ℕ) (C : ServerCalls K) (context : Context)
    (server_sock child_pipe_output : ℕ) where
  client_dropped :
      (fd : ℕ) (st : Serving) (s t t' : K.State)
      → handle_message K fuel context fd s ≡ some ((failure, none), t)
      → voyeur_close_socket K fuel fd t ≡ some (tt, t')
      → serve_client K fuel context fd st s ≡ some (record st { active = fd_clr fd st.active }, t')
  unfolding serve_client after_message drop_fd log_call
  client_dropped fd st s t t' e e' = rw (e, ◌>>=◌) (rw (e', ◌>>=◌))

  client_accepted :
      (fd : ℕ) (st : Serving) (s t : K.State)
      → C.accept server_sock s ≡ (some fd, t)
      → fd < fd_setsize
      → serve_fd K fuel C context server_sock child_pipe_output
          (only server_sock)
          no_fd
          server_sock
          st
          s
        ≡ some (record st { active = fd_set fd st.active }, t)
  unfolding serve_fd serve_accept watch
  client_accepted fd st s t e lt = ground (arith, e, lt→ltb _ _ lt)

  serve_interrupted :
      (rounds : ℕ) (st : Serving) (s s1 : K.State)
      → st.child_exited ≡ false
      → C.select st.active s ≡ (select_failed eintr, s1)
      → serve K fuel C context server_sock child_pipe_output (suc rounds) st s
        ≡ serve K fuel C context server_sock child_pipe_output rounds st s1
  unfolding after_select
  serve_interrupted rounds st s s1 running sel =
      serve_running K fuel C context server_sock child_pipe_output rounds st s running sel

  serve_same :
      (st : Serving) (s : K.State) (m k : ℕ)
      → m ≡ k
      → serve K fuel C context server_sock child_pipe_output m st s
        ≡ serve K fuel C context server_sock child_pipe_output k st s
  serve_same st s m k e = ap (λ r. serve K fuel C context server_sock child_pipe_output r st s) e

  -- Any number of rounds, while the child runs, in each of which select(2) is interrupted or finds
  -- one descriptor ready, namely a client that says a whole event, a client that is to be dropped,
  -- or the socket with a new client whose descriptor fits an `fd_set`, bring the loop of
  -- `run_server` to the state that the rounds lead to, with the child still running and its status
  -- unchanged, and with exactly the calls of the callbacks that the events made appended to the
  -- earlier ones, in order.
  pub serve-Rounds :
      {n : ℕ} {st st' : Serving} {s s' : K.State} {calls : List Call}
      → Rounds K fuel C context server_sock child_pipe_output n st s calls st' s'
      → (rounds : ℕ) → st.child_exited ≡ false
      → (serve K fuel C context server_sock child_pipe_output (n + rounds) st s
          ≡ serve K fuel C context server_sock child_pipe_output rounds st' s')
        × (st'.calls ≡ st.calls ++ calls)
        × (st'.child_exited ≡ false)
        × (st'.child_status ≡ st.child_status)
  serve-Rounds {st = st} {s = s} over rounds running =
      (serve_same st s (0 + rounds) rounds (omega arith), sym (append-nil st.calls), running, refl)
  serve-Rounds {n = suc n} {st = st} {s = s} (interrupted {s1 = s1} sel more) rounds running =
      let (e, log, still, status) = serve-Rounds more rounds running in
      (
        serve_same st s (suc n + rounds) (suc (n + rounds)) (omega arith)
            ∙ serve_interrupted (n + rounds) st s s1 running sel
            ∙ e,
        log,
        still,
        status,
      )
  serve-Rounds {n = suc n} {st = st} {s = s}
        (spoke {fd = fd} {made = made} {s1 = s1} {t = t} {calls = calls} lt ns nc sel heard more)
        rounds running =
      let (e, log, still, status) = serve-Rounds more rounds running in
      let answered =
        ap {A = M K.State Serving} (λ m. m s1)
          (serve_fd_client K fuel C context server_sock child_pipe_output fd st ns nc)
        ∙ client_answered K fuel C context server_sock child_pipe_output fd st made s1 t heard in
      (
        serve_same st s (suc n + rounds) (suc (n + rounds)) (omega arith)
            ∙ serve_round K fuel C context server_sock child_pipe_output (n + rounds) fd st _ s s1 t
                running lt sel answered
            ∙ e,
        log
            ∙ ap (λ l. l ++ calls) (log_call-append made st.calls)
            ∙ append_assoc st.calls (log_call made []) calls,
        still,
        status,
      )
  serve-Rounds {n = suc n} {st = st} {s = s}
        (hung_up {fd = fd} {s1 = s1} {t = t} {t' = t'} lt ns nc sel heard closed more) rounds
        running =
      let (e, log, still, status) = serve-Rounds more rounds running in
      let dropped =
        ap {A = M K.State Serving} (λ m. m s1)
          (serve_fd_client K fuel C context server_sock child_pipe_output fd st ns nc)
        ∙ client_dropped fd st s1 t t' heard closed in
      (
        serve_same st s (suc n + rounds) (suc (n + rounds)) (omega arith)
            ∙ serve_round K fuel C context server_sock child_pipe_output (n + rounds) fd st _ s s1
                t' running lt sel dropped
            ∙ e,
        log,
        still,
        status,
      )
  serve-Rounds {n = suc n} {st = st} {s = s}
        (connected {fd = fd} {s1 = s1} {t = t} lt sel came small more) rounds running =
      let (e, log, still, status) = serve-Rounds more rounds running in
      (
        serve_same st s (suc n + rounds) (suc (n + rounds)) (omega arith)
            ∙ serve_round K fuel C context server_sock child_pipe_output (n + rounds) server_sock st
                _ s s1 t running lt sel (client_accepted fd st s1 t came small)
            ∙ e,
        log,
        still,
        status,
      )
