-- ===== src/Server/Loop.antt =====
-- The loops of `run_server` over the descriptors, where one of them is ready.
use libvoyeur.Common.{
  ◌∙◌, ap, M, >>=-some, suc, ◌>>=◌, ℕ, zero, suc, ◌+◌, ◌≤◌, ◌<◌, ◌≡◌, ◌≢◌, refl, ap, Bool, true,
  false, Option, some, arith, M, pure, ◌>>=◌, Bool-cases, inl, inr, ◌==◌, ==_iff, if◌then◌else◌,
}
use libvoyeur.Kernel.{Kernel}
use libvoyeur.Net.{success, voyeur_read_int_into}
use libvoyeur.Net.Connect.{voyeur_close_socket}
use libvoyeur.Event.{Context}
use libvoyeur.Event.Handle.{Call, handle_message}
use libvoyeur.Server.{
  serve, after_select, selected, SelectOutcome, FdSet, fd_set, fd_clr, fd_setsize, ServerCalls,
  Serving, log_call, drop_fd, serve_child, after_message, serve_client, serve_fd, for_fds,
}

-- A loop whose body does nothing but for one descriptor makes that one step.
for_fds_none :
    {S A : Type 0} (body : ℕ → A → M S A) (left fd : ℕ) (a : A)
    → ((n : ℕ) → fd ≤ n → (b : A) → body n b ≡ pure b)
    → for_fds body left fd a ≡ pure a
unfolding for_fds
for_fds_none body zero fd a idle = refl
for_fds_none body (suc left) fd a idle =
    rw (idle fd (omega arith) a) (for_fds_none body left (suc fd) a (λ n h. idle n (omega arith)))

for_fds_one :
    {S A : Type 0} (body : ℕ → A → M S A) (k left fd : ℕ) (a b : A) (s t : S)
    → fd ≤ k
    → k < fd + left
    → ((n : ℕ) → n ≢ k → (b : A) → body n b ≡ pure b)
    → body k a s ≡ some (b, t)
    → for_fds body left fd a s ≡ some (b, t)
unfolding for_fds
for_fds_one body k zero fd a b s t lo hi idle e = absurd (omega arith)
for_fds_one body k (suc left) fd a b s t lo hi idle e = elim (Bool-cases (fd == k)) [
  | inl here ↦
      let same : fd ≡ k = (==_iff fd k).0 here in
      let now : body fd a s ≡ some (b, t) = rw same e in
      rw (now, ◌>>=◌)
        (ap (λ m. m t) (for_fds_none body left (suc fd) b (λ n h. idle n (λ q. omega arith))))
  | inr there ↦
      let other : fd ≢ k = λ q. ground arith in
      rw (idle fd other a)
        (for_fds_one body k left (suc fd) a b s t (ground arith) (omega arith) idle e)
]

pub if_true : {A : Type 0} (b : Bool) (x y : A) → b ≡ true → (if b then x else y) ≡ x
if_true true x y e = refl
if_true false x y e = cc

pub if_false : {A : Type 0} (b : Bool) (x y : A) → b ≡ false → (if b then x else y) ≡ y
if_false true x y e = cc
if_false false x y e = refl

-- Only this descriptor is ready.
abbrev pub only : ℕ → FdSet
only k = fd_set k (λ n. false)

abbrev pub no_fd : FdSet
no_fd n = false

module _ (K : Kernel) (fuel : ℕ) (C : ServerCalls K) (context : Context)
    (server_sock child_pipe_output : ℕ) where
  serve_fd_idle :
      (k n : ℕ)
      → n ≢ k
      → (st : Serving)
      → serve_fd K fuel C context server_sock child_pipe_output (only k) no_fd n st ≡ pure st
  unfolding serve_fd
  serve_fd_idle k n ne st = ground arith

  round_lem :
      (k : ℕ) (st st' : Serving) (s t : K.State)
      → k < fd_setsize
      → serve_fd K fuel C context server_sock child_pipe_output (only k) no_fd k st s
        ≡ some (st', t)
      → for_fds
          (serve_fd K fuel C context server_sock child_pipe_output (only k) no_fd)
          fd_setsize
          0
          st
          s
        ≡ some (st', t)
  round_lem k st st' s t lt e =
      for_fds_one _ k fd_setsize 0 st st' s t (omega arith) (omega arith) (serve_fd_idle k) e

  pub serve_fd_client :
      (fd : ℕ) (st : Serving)
      → fd ≢ server_sock
      → fd ≢ child_pipe_output
      → serve_fd K fuel C context server_sock child_pipe_output (only fd) no_fd fd st
        ≡ serve_client K fuel context fd st
  unfolding serve_fd
  serve_fd_client fd st ns nc = ground arith

  pub serve_fd_child :
      (st : Serving)
      → child_pipe_output ≢ server_sock
      → serve_fd K fuel C context server_sock child_pipe_output
          (only child_pipe_output)
          no_fd
          child_pipe_output
          st
        ≡ serve_child K fuel child_pipe_output st
  unfolding serve_fd
  serve_fd_child st ns = ground arith

  pub child_served :
      (st : Serving) (status : ℕ) (s s1 s2 : K.State)
      → voyeur_read_int_into K fuel child_pipe_output st.child_status s ≡ some (status, s1)
      → voyeur_close_socket K fuel child_pipe_output s1 ≡ some (tt, s2)
      → serve_child K fuel child_pipe_output st s
        ≡ some (
          record {
            active = fd_clr child_pipe_output st.active;
            child_exited = true;
            child_status = status;
            calls = st.calls;
          },
          s2,
        )
  unfolding serve_child drop_fd
  child_served st status s s1 s2 e e' = rw (e, ◌>>=◌) (rw (e', ◌>>=◌))

  pub client_answered :
      (fd : ℕ) (st : Serving) (made : Option Call) (s t : K.State)
      → handle_message K fuel context fd s ≡ some ((success, made), t)
      → serve_client K fuel context fd st s ≡ some (record st { calls = log_call made st.calls }, t)
  unfolding serve_client after_message
  client_answered fd st made s t e = rw (e, ◌>>=◌)

  -- A round of the `while` loop.
  pub serve_running :
      (rounds : ℕ) (st : Serving) (s : K.State) {o : SelectOutcome} {s' : K.State}
      → st.child_exited ≡ false
      → C.select st.active s ≡ (o, s')
      → serve K fuel C context server_sock child_pipe_output (suc rounds) st s
        ≡ after_select K fuel C context server_sock child_pipe_output
            (serve K fuel C context server_sock child_pipe_output rounds)
            st
            o
            s'
  unfolding serve
  serve_running rounds st s running sel =
      ap {A = M K.State Serving} (λ m. m s) (if_false st.child_exited _ _ running)
      ∙ ap {A = SelectOutcome × K.State}
          (λ r.
            after_select K fuel C context server_sock child_pipe_output
              (serve K fuel C context server_sock child_pipe_output rounds) st r.0 r.1)
          sel

  pub serve_round :
      (rounds k : ℕ) (st st' : Serving) (s s' t : K.State)
      → st.child_exited ≡ false
      → k < fd_setsize
      → C.select st.active s ≡ (selected (only k) no_fd, s')
      → serve_fd K fuel C context server_sock child_pipe_output (only k) no_fd k st s'
        ≡ some (st', t)
      → serve K fuel C context server_sock child_pipe_output (suc rounds) st s
        ≡ serve K fuel C context server_sock child_pipe_output rounds st' t
  unfolding after_select
  serve_round rounds k st st' s s' t running lt sel e =
      serve_running rounds st s running sel
      ∙ >>=-some
          (for_fds (serve_fd K fuel C context server_sock child_pipe_output (only k) no_fd)
            fd_setsize 0 st)
          (serve K fuel C context server_sock child_pipe_output rounds) s'
          (round_lem k st st' s' t lt e)

  pub serve_exited :
      (rounds : ℕ) (st : Serving) (s : K.State)
      → st.child_exited ≡ true
      → serve K fuel C context server_sock child_pipe_output rounds st s ≡ some (st, s)
  unfolding serve
  serve_exited zero st s e = ground arith
  serve_exited (suc rounds) st s e =
      ap {A = M K.State Serving} (λ m. m s) (if_true st.child_exited _ _ e)
