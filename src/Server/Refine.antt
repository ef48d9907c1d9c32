-- ===== src/Server/Refine.antt =====
-- `run_server` does what the abstract server can do, whatever the system calls answer.
use libvoyeur.Common.{
  ℕ, zero, suc, ◌+◌, ◌≤◌, false, ◌∷◌, ◌⊎◌, ltb, if◌then◌else◌, ap, ◌∙◌, sym, ◌≡◌, refl, true,
  Option, some, List, [], ◌++◌, arith, M, pure, ◌>>=◌, >>=-eq-some, Bool-cases, inl, inr,
}
use mathlib.Core.Path.{subst}
use libvoyeur.Server.Loop.{if_true, if_false}
use libvoyeur.Kernel.{eagain, ewouldblock, eintr, other_errno, Errno, Kernel}
use libvoyeur.Net.{retries_read}
use libvoyeur.Net.Connect.{voyeur_close_socket}
use libvoyeur.Event.{Context}
use libvoyeur.Event.Handle.{Call}
use libvoyeur.Server.{
  FdSet, fd_setsize, SelectOutcome, selected, select_failed, ServerCalls, Serving, serve_fd,
  for_fds, after_select, serve, finish_server, serving_start, run_server, exit_status,
  close_straggler,
}
use libvoyeur.Server.Acts.{
  Act, act, Turn, rest, then_at, Turn-lower, Acts, done, again, turn, Acts-calls, calls_of,
  Acts-status, status_of,
}
use libvoyeur.Server.Steps.{serve_fd-act, Step-frame}

-- select(2) reports only descriptors that it was asked about.
pub record IsSelect {K : Kernel} (C : ServerCalls K) : Type 0 where
  pub select_law :
      (active : FdSet) (s : K.State) (reads errors : FdSet) (t : K.State) (fd : ℕ)
      → C.select active s ≡ (selected reads errors, t)
      → (reads fd ≡ true → active fd ≡ true) × (errors fd ≡ true → active fd ≡ true)

module _ {K : Kernel} (fuel : ℕ) (C : ServerCalls K) (context : Context)
    (server_sock child_pipe_output : ℕ) where
  -- Some acts at the descriptors from one on, after one call of select(2).
  abbrev ATurn : FdSet → FdSet → ℕ → Serving → K.State → Serving → K.State → Type 0
  ATurn reads errors fd st s st' t =
      (acts : List Act) × Turn K fuel C context server_sock child_pipe_output reads errors fd st s
        acts st' t

  -- The loop over the descriptors.
  for_fds-Turn :
      (reads errors : FdSet) (left fd : ℕ) (st : Serving) (s : K.State) {st' : Serving}
      {t : K.State}
      → fd + left ≡ fd_setsize
      → ((n : ℕ) → fd ≤ n → reads n ≡ true → st.active n ≡ true)
      → ((n : ℕ) → fd ≤ n → errors n ≡ true → st.active n ≡ true)
      → for_fds (serve_fd K fuel C context server_sock child_pipe_output reads errors) left fd st s
        ≡ some (st', t)
      → ATurn reads errors fd st s st' t
  unfolding for_fds
  for_fds-Turn reads errors zero fd st s {st'} {t} le r_on e_on e =
      let same : st ≡ st' = cc in
      let kept : s ≡ t = cc in rw same (rw kept ([], rest (λ m low high. absurd (omega arith))))
  for_fds-Turn reads errors (suc left) fd st s {st'} {t} le r_on e_on e =
      let body = serve_fd K fuel C context server_sock child_pipe_output reads errors in
      let (st1, s1, e1, e2) = >>=-eq-some (body fd st) (for_fds body left (suc fd)) s e in
      elim (serve_fd-act fuel C context server_sock child_pipe_output reads errors fd st s
        (r_on fd (omega arith)) (e_on fd (omega arith)) e1) [
          | inl (same, kept, idle) ↦
              let e3 : for_fds body left (suc fd) st s ≡ some (st', t) =
                ap (λ a. for_fds body left (suc fd) a s) same
                ∙ ap (for_fds body left (suc fd) st1) kept
                ∙ e2 in
              let (acts, more) =
                for_fds-Turn reads errors left (suc fd) st s (omega arith)
                  (λ n le r. r_on n (omega arith) r) (λ n le r. e_on n (omega arith) r) e3 in
              (
                acts,
                Turn-lower K fuel C context server_sock child_pipe_output reads errors idle more,
              )
          | inr (a, step, left_at) ↦
              let st2 : Serving = act K fuel C context server_sock child_pipe_output a st in
              let frame =
                Step-frame fuel C context server_sock child_pipe_output reads errors step in
              let e3 : for_fds body left (suc fd) st2 s1 ≡ some (st', t) =
                ap (λ b. for_fds body left (suc fd) b s1) left_at ∙ e2 in
              let (acts, more) =
                for_fds-Turn reads errors left (suc fd) st2 s1 (omega arith)
                  (λ n le r. frame n (λ q. omega arith) (r_on n (omega arith) r))
                  (λ n le r. frame n (λ q. omega arith) (e_on n (omega arith) r)) e3 in
              (
                a ∷ acts,
                then_at (omega arith) (omega arith) (λ m le lt. absurd (omega arith)) step more,
              )
        ]

  -- Why the loop stops, and what select(2) leaves: the child has ended, or select(2) fails for good.
  abbrev pub Halts : Serving → K.State → K.State → Type 0
  Halts last u t =
      ((last.child_exited ≡ true) × (u ≡ t))
      ⊎ ((e : Errno) × (last.child_exited ≡ false)
          × (C.select last.active u ≡ (select_failed e, t))
          × (retries_read e ≡ false))

  -- A history of acts, and why it stops.
  abbrev pub History : Serving → K.State → Serving → K.State → Type 0
  History st s last t =
      (acts : List Act) × (u : K.State) × Acts K fuel C context server_sock child_pipe_output st s
        acts last u
      × Halts last u t

  halted :
      (st st' : Serving) (s s1 t : K.State) (e : Errno)
      → st.child_exited ≡ false
      → C.select st.active s ≡ (select_failed e, s1)
      → retries_read e ≡ false
      → pure st s1 ≡ some (st', t)
      → History st s st' t
  halted st st' s s1 t e running sel final ret =
      let same : st ≡ st' = cc in
      let kept : s1 ≡ t = cc in
      let end : Halts st s t = inr (e, running, rw kept at sel, final) in
      let history : History st s st t = ([], s, done, end) in
      subst (λ last. History st s last t) same history

  retried :
      (st st' : Serving) (s s1 t : K.State) (e : Errno)
      → st.child_exited ≡ false
      → C.select st.active s ≡ (select_failed e, s1)
      → retries_read e ≡ true
      → History st s1 st' t
      → History st s st' t
  retried st st' s s1 t e running sel temporary (acts, u, run, end) =
      (acts, u, again running sel temporary run, end)

  -- A round, given what the later ones do.
  after_select-Acts :
      (later : Serving → M K.State Serving)
      → ((st st' : Serving) (s t : K.State) → later st s ≡ some (st', t) → History st s st' t)
      → (st st' : Serving) (s0 s t : K.State) (o : SelectOutcome) → IsSelect C
      → st.child_exited ≡ false
      → C.select st.active s0 ≡ (o, s)
      → after_select K fuel C context server_sock child_pipe_output later st o s ≡ some (st', t)
      → History st s0 st' t
  unfolding after_select retries_read
  after_select-Acts later ih st st' s0 s t (selected reads errors) L running sel e =
      let (st1, s1, e1, e2) =
        >>=-eq-some
          (for_fds (serve_fd K fuel C context server_sock child_pipe_output reads errors) fd_setsize
            0 st)
          later s e in
      let (acts, first) =
        for_fds-Turn reads errors fd_setsize 0 st s refl
          (λ n le. (L.select_law st.active s0 reads errors s n sel).0)
          (λ n le. (L.select_law st.active s0 reads errors s n sel).1) e1 in
      let (more, u, run, end) = ih st1 st' s1 t e2 in
      (acts ++ more, u, turn running sel first run, end)
  after_select-Acts later ih st st' s0 s t (select_failed eagain) L running sel e =
      retried st st' s0 s t eagain running sel refl (ih st st' s t e)
  after_select-Acts later ih st st' s0 s t (select_failed eintr) L running sel e =
      retried st st' s0 s t eintr running sel refl (ih st st' s t e)
  after_select-Acts later ih st st' s0 s t (select_failed ewouldblock) L running sel e =
      halted st st' s0 s t ewouldblock running sel refl e
  after_select-Acts later ih st st' s0 s t (select_failed other_errno) L running sel e =
      halted st st' s0 s t other_errno running sel refl e

  over_lem :
      (st st' : Serving) (s t : K.State)
      → st.child_exited ≡ true
      → pure st s ≡ some (st', t)
      → History st s st' t
  over_lem st st' s t exited ret =
      let same : st ≡ st' = cc in
      let kept : s ≡ t = cc in
      let history : History st s st t = ([], s, done, inl (exited, kept)) in
      subst (λ last. History st s last t) same history

  -- Whatever the loop of `run_server` does is a history of acts.
  pub serve-Acts :
      (rounds : ℕ) (st st' : Serving) (s t : K.State)
      → IsSelect C
      → serve K fuel C context server_sock child_pipe_output rounds st s ≡ some (st', t)
      → History st s st' t
  unfolding serve
  serve-Acts zero st st' s t L e = elim (Bool-cases st.child_exited) [
    | inl exited ↦
        over_lem st st' s t exited
          (sym (ap {A = M K.State Serving} (λ m. m s) (if_true st.child_exited _ _ exited)) ∙ e)
    | inr running ↦ absurd (ground arith)
  ]
  serve-Acts (suc rounds) st st' s t L e = elim (Bool-cases st.child_exited) [
    | inl exited ↦
        over_lem st st' s t exited
          (sym (ap {A = M K.State Serving} (λ m. m s) (if_true st.child_exited _ _ exited)) ∙ e)
    | inr running ↦
        after_select-Acts (serve K fuel C context server_sock child_pipe_output rounds)
          (λ st st' s t e. serve-Acts rounds st st' s t L e) st st' s (C.select st.active s).1 t
          (C.select st.active s).0 L running refl
          (sym (ap {A = M K.State Serving} (λ m. m s) (if_false st.child_exited _ _ running)) ∙ e)
  ]

  -- What a whole run promises: the history of acts that starts with nothing but the socket and the pipe
  -- watched, why it stops, the calls of callbacks that the acts made, and the exit status in the status
  -- that the acts left, 0 at first.
  abbrev pub Promised : K.State → Option ℕ → List Call → Type 0
  Promised s code calls =
      (acts : List Act) × (last : Serving) × (u t : K.State) × Acts K fuel C context server_sock
        child_pipe_output (serving_start K fuel C context server_sock child_pipe_output) s acts last
        u
      × Halts last u t
      × (calls ≡ calls_of acts)
      × (code ≡ exit_status (status_of 0 acts))

  finish_value :
      (last : Serving) (s t : K.State) (code : Option ℕ) (calls : List Call)
      → finish_server K fuel C context server_sock child_pipe_output last s
        ≡ some ((code, calls), t)
      → (code ≡ exit_status last.child_status) × (calls ≡ last.calls)
  unfolding finish_server
  finish_value last s t code calls e =
      let (_, s2, _, e3) =
        >>=-eq-some (voyeur_close_socket K fuel server_sock)
          (λ _. for_fds (close_straggler K fuel last.active) fd_setsize 0 tt >>= λ _.
            pure (exit_status last.child_status, last.calls))
          s e in
      let (_, s3, _, e4) =
        >>=-eq-some (for_fds (close_straggler K fuel last.active) fd_setsize 0 tt)
          (λ _. pure (exit_status last.child_status, last.calls)) s2 e3 in
      (cc, cc)

  -- Where select(2) reports only descriptors that it was asked about, then whatever the system
  -- calls answer, and however many descriptors are ready at once, a call of `run_server` that
  -- returns has followed a history of the abstract server, from the given state of the system and
  -- with nothing but the socket and the pipe watched: while the child runs, select(2) fails for
  -- now, or reports descriptors, each of which has exactly one act, in ascending order: a client
  -- joins by accept(2), with a descriptor that fits an `fd_set`, or accept(2) gives none; a watched
  -- client that was reported says the event, and makes the call, that `handle_message` reads from
  -- it, or is over and closed; a watched descriptor with an error is closed; the child ends with
  -- the status that the pipe leaves, and the pipe is closed. The history stops once the child has
  -- ended, or where select(2) fails for good; the calls of callbacks are exactly those of the acts,
  -- in order, and the result is the exit status in the status that the acts left, 0 at first.
  pub run_server-Acts :
      (rounds : ℕ) (s t : K.State) (code : Option ℕ) (calls : List Call)
      → IsSelect C
      → run_server K fuel C context server_sock child_pipe_output rounds s ≡ some ((code, calls), t)
      → Promised s code calls
  unfolding run_server
  run_server-Acts rounds s t code calls L e =
      let start : Serving = serving_start K fuel C context server_sock child_pipe_output in
      elim (Bool-cases
        (if ltb server_sock fd_setsize then ltb child_pipe_output fd_setsize else false)) [
          | inr outside ↦ absurd (ground arith)
          | inl inside ↦
              let (last, s1, e1, e2) =
                >>=-eq-some (serve K fuel C context server_sock child_pipe_output rounds start)
                  (finish_server K fuel C context server_sock child_pipe_output) s
                  (rw inside at e) in
              let (acts, u, run, end) = serve-Acts rounds start last s s1 L e1 in
              let log : last.calls ≡ [] ++ calls_of acts =
                Acts-calls K fuel C context server_sock child_pipe_output run in
              let status : last.child_status ≡ status_of 0 acts =
                Acts-status K fuel C context server_sock child_pipe_output run in
              let (value, made) = finish_value last s1 t code calls e2 in
              (acts, last, u, s1, run, end, made ∙ log, value ∙ ap exit_status status)
        ]
