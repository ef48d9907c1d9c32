-- ===== src/Server/Steps.antt =====
-- What happens at one descriptor in a round of `run_server` is at most one act of the abstract server.
use libvoyeur.Common.{
  ℕ, ◌≡◌, ◌≢◌, refl, sym, true, false, Option, none, some, arith, pure, >>=-eq-some, Bool-cases,
  ◌⊎◌, inl, inr, ◌==◌, ==_iff, ltb,
}
use mathlib.Core.Path.{subst}
use libvoyeur.Kernel.{Kernel}
use libvoyeur.Net.{Status, success, failure, voyeur_read_int_into}
use libvoyeur.Net.Connect.{voyeur_close_socket}
use libvoyeur.Event.{Context}
use libvoyeur.Event.Handle.{Call, handle_message}
use libvoyeur.Server.{
  FdSet, fd_clr, fd_setsize, ServerCalls, Serving, log_call, drop_fd, watch, serve_accept,
  serve_child, after_message, serve_client, serve_fd,
}
use libvoyeur.Server.Acts.{
  Act, joined, missed, said, over, broke, ended, act, IsClient, IsReady, IsIdle, Step, accepting,
  missing, saying, leaving, breaking, ending,
}

module _ {K : Kernel} (fuel : ℕ) (C : ServerCalls K) (context : Context)
    (server_sock child_pipe_output : ℕ) where
  drop_fd_lem :
      (fd : ℕ) (st : Serving) (s : K.State) {st' : Serving} {t : K.State}
      → drop_fd K fuel fd st s ≡ some (st', t)
      → (voyeur_close_socket K fuel fd s ≡ some (tt, t))
        × (record st { active = fd_clr fd st.active } ≡ st')
  unfolding drop_fd
  drop_fd_lem fd st s e =
      let (_, s1, closed, e1) =
        >>=-eq-some (voyeur_close_socket K fuel fd)
          (λ _. pure (record st { active = fd_clr fd st.active })) s e in
      (cc, cc)

  module _ (reads errors : FdSet) where
    -- An act and the state that it leaves, or none where the descriptor was not reported.
    abbrev pub OneAct : Serving → K.State → ℕ → Serving → K.State → Type 0
    OneAct st s fd st' t =
        ((st ≡ st')
          × (s ≡ t)
          × IsIdle K fuel C context server_sock child_pipe_output reads errors fd)
        ⊎ ((a : Act) × Step K fuel C context server_sock child_pipe_output reads errors st s fd a t
            × (act K fuel C context server_sock child_pipe_output a st ≡ st'))

    after_message-act :
        (fd : ℕ) (st : Serving) (r : Status × Option Call) (s s1 : K.State) {st' : Serving}
        {t : K.State}
        → IsReady K fuel C context server_sock child_pipe_output reads errors st fd
        → IsClient K fuel C context server_sock child_pipe_output fd
        → handle_message K fuel context fd s ≡ some (r, s1)
        → after_message K fuel fd st r s1 ≡ some (st', t)
        → OneAct st s fd st' t
    unfolding after_message act
    after_message-act fd st (success, made) s s1 {st'} {t} ready client heard e =
        let same : s1 ≡ t = cc in inr (said fd made, saying ready client (rw same at heard), cc)
    after_message-act fd st (failure, made) s s1 ready client heard e =
        let (closed, left) = drop_fd_lem fd (record st { calls = log_call made st.calls }) s1 e in
        inr (over fd made, leaving ready client heard closed, left)

    serve_client-act :
        (fd : ℕ) (st : Serving) (s : K.State) {st' : Serving} {t : K.State}
        → IsReady K fuel C context server_sock child_pipe_output reads errors st fd
        → IsClient K fuel C context server_sock child_pipe_output fd
        → serve_client K fuel context fd st s ≡ some (st', t)
        → OneAct st s fd st' t
    unfolding serve_client
    serve_client-act fd st s ready client e =
        let (r, s1, heard, e1) =
          >>=-eq-some (handle_message K fuel context fd) (after_message K fuel fd st) s e in
        after_message-act fd st r s s1 ready client heard e1

    serve_child-act :
        (st : Serving) (s : K.State) {st' : Serving} {t : K.State}
        → IsReady K fuel C context server_sock child_pipe_output reads errors st child_pipe_output
        → child_pipe_output ≢ server_sock
        → serve_child K fuel child_pipe_output st s ≡ some (st', t)
        → OneAct st s child_pipe_output st' t
    unfolding serve_child act
    serve_child-act st s ready ne e =
        let (status, s1, got, e1) =
          >>=-eq-some (voyeur_read_int_into K fuel child_pipe_output st.child_status)
            (λ status.
              drop_fd K fuel child_pipe_output
                (record st { child_exited = true; child_status = status }))
            s e in
        let (closed, left) =
          drop_fd_lem child_pipe_output (record st { child_exited = true; child_status = status })
            s1 e1 in
        inr (ended status, ending ready ne got closed, left)

    watch-act :
        (came : Option ℕ) (st : Serving) (s s1 : K.State) {st' : Serving} {t : K.State}
        → IsReady K fuel C context server_sock child_pipe_output reads errors st server_sock
        → C.accept server_sock s ≡ (came, s1)
        → watch K fuel came st s1 ≡ some (st', t)
        → OneAct st s server_sock st' t
    unfolding watch act
    watch-act none st s s1 {st'} {t} ready got e =
        let same : s1 ≡ t = cc in inr (missed, missing ready (rw same at got), cc)
    watch-act (some fd) st s s1 {st'} {t} ready got e = elim (Bool-cases (ltb fd fd_setsize)) [
      | inl small ↦
          let run = rw small at e in
          let same : s1 ≡ t = cc in
          inr (joined fd, accepting ready (rw same at got) (ground (arith, small)), cc)
      | inr large ↦ let run = rw large at e in cc
    ]

    serve_accept-act :
        (st : Serving) (s : K.State) {st' : Serving} {t : K.State}
        → IsReady K fuel C context server_sock child_pipe_output reads errors st server_sock
        → serve_accept K fuel C server_sock st s ≡ some (st', t)
        → OneAct st s server_sock st' t
    unfolding serve_accept
    serve_accept-act st s ready e =
        watch-act (C.accept server_sock s).0 st s (C.accept server_sock s).1 ready refl e

    IsReady-subst :
        (fd n : ℕ) (st : Serving)
        → fd ≡ n
        → errors fd ≡ false
        → reads fd ≡ true
        → st.active fd ≡ true
        → IsReady K fuel C context server_sock child_pipe_output reads errors st n
    IsReady-subst fd n st same sound ready on = (cc, cc, cc)

    pub serve_fd-act :
        (fd : ℕ) (st : Serving) (s : K.State) {st' : Serving} {t : K.State}
        → (reads fd ≡ true → st.active fd ≡ true)
        → (errors fd ≡ true → st.active fd ≡ true)
        → serve_fd K fuel C context server_sock child_pipe_output reads errors fd st s
          ≡ some (st', t)
        → OneAct st s fd st' t
    unfolding serve_fd act
    serve_fd-act fd st s {st'} {t} r_on e_on e = elim (Bool-cases (errors fd)) [
      | inl failed ↦
          let (closed, left) = drop_fd_lem fd st s (rw failed at e) in
          inr (broke fd, breaking failed (e_on failed) closed, left)
      | inr sound ↦ elim (Bool-cases (reads fd)) [
        | inr idle ↦ let run = rw (sound, idle) at e in inl (cc, cc, (sound, idle))
        | inl ready ↦ elim (Bool-cases (fd == server_sock)) [
          | inl server ↦
              let same : fd ≡ server_sock = (==_iff fd server_sock).0 server in
              subst (λ n. OneAct st s n st' t) (sym same)
                (serve_accept-act st s
                  (IsReady-subst fd server_sock st same sound ready (r_on ready))
                  (rw (sound, ready, server) at e))
          | inr not_server ↦ elim (Bool-cases (fd == child_pipe_output)) [
            | inl pipe ↦
                let same : fd ≡ child_pipe_output = (==_iff fd child_pipe_output).0 pipe in
                let run : serve_child K fuel fd st s ≡ some (st', t) =
                  rw (sound, ready, not_server, pipe) at e in
                subst (λ n. OneAct st s n st' t) (sym same)
                  (serve_child-act st s
                    (IsReady-subst fd child_pipe_output st same sound ready (r_on ready))
                    (λ q. ground arith) (rw same at run))
            | inr not_pipe ↦
                serve_client-act fd st s (sound, ready, r_on ready)
                  (λ q. ground arith, λ q. ground arith)
                  (rw (sound, ready, not_server, not_pipe) at e)
          ]
        ]
      ]
    ]

    -- An act leaves the other descriptors watched.
    pub Step-frame :
        {st : Serving} {s t : K.State} {fd : ℕ} {a : Act}
        → Step K fuel C context server_sock child_pipe_output reads errors st s fd a t
        → (n : ℕ) → n ≢ fd
        → st.active n ≡ true
        → (act K fuel C context server_sock child_pipe_output a st).active n ≡ true
    unfolding act
    Step-frame (accepting ready came small) n ne w = ground arith
    Step-frame (missing ready came) n ne w = w
    Step-frame (saying ready client heard) n ne w = w
    Step-frame (leaving ready client heard closed) n ne w = ground arith
    Step-frame (breaking failed on closed) n ne w = ground arith
    Step-frame (ending ready ns got closed) n ne w = ground arith
