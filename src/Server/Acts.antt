-- ===== src/Server/Acts.antt =====
-- An abstract server: what `run_server` promises, in terms of connections and calls. Each act is one
-- descriptor that select(2) has reported, with what the system calls answered for it.
use libvoyeur.Common.{
  ℕ, suc, ◌≤◌, ◌<◌, ◌≡◌, ◌≢◌, refl, ◌∙◌, true, false, Option, none, some, List, [], ◌∷◌, ◌++◌, sym,
  append-nil, append_assoc, arith, ap, Bool-cases, inl, inr, ◌==◌, ==_iff,
}
use mathlib.Core.Path.{subst}
use libvoyeur.Kernel.{Kernel, Errno}
use libvoyeur.Net.{success, failure, retries_read, voyeur_read_int_into}
use libvoyeur.Net.Connect.{voyeur_close_socket}
use libvoyeur.Event.{Context}
use libvoyeur.Event.Handle.{Call, handle_message}
use libvoyeur.Server.{
  FdSet, fd_set, fd_clr, fd_setsize, selected, select_failed, ServerCalls, Serving, log_call,
}

-- What can happen to the server. A client joins, or turns out not to be there; one says an event, with the
-- call of a callback if one was made, or is over, which may come with a call too; `broke` is a descriptor
-- with an error; `ended` is the end of the child, with its status afterwards.
pub data Act : Type 0 where
  joined : ℕ → Act
  missed : Act
  said : ℕ → Option Call → Act
  over : ℕ → Option Call → Act
  broke : ℕ → Act
  ended : ℕ → Act

-- The calls of callbacks that some acts made, in order.
unfoldable pub calls_of : List Act → List Call
calls_of [] = []
calls_of (joined fd ∷ acts) = calls_of acts
calls_of (missed ∷ acts) = calls_of acts
calls_of (said fd made ∷ acts) = log_call made [] ++ calls_of acts
calls_of (over fd made ∷ acts) = log_call made [] ++ calls_of acts
calls_of (broke fd ∷ acts) = calls_of acts
calls_of (ended status ∷ acts) = calls_of acts

-- The status of the child after some acts: the last that was stored.
unfoldable pub status_of : ℕ → List Act → ℕ
status_of old [] = old
status_of old (joined fd ∷ acts) = status_of old acts
status_of old (missed ∷ acts) = status_of old acts
status_of old (said fd made ∷ acts) = status_of old acts
status_of old (over fd made ∷ acts) = status_of old acts
status_of old (broke fd ∷ acts) = status_of old acts
status_of old (ended status ∷ acts) = status_of status acts

calls_of-append : (acts more : List Act) → calls_of (acts ++ more) ≡ calls_of acts ++ calls_of more
unfolding calls_of
calls_of-append [] more = refl
calls_of-append (joined fd ∷ acts) more = calls_of-append acts more
calls_of-append (missed ∷ acts) more = calls_of-append acts more
calls_of-append (said fd made ∷ acts) more =
    ap (λ l. log_call made [] ++ l) (calls_of-append acts more)
    ∙ sym (append_assoc (log_call made []) (calls_of acts) (calls_of more))
calls_of-append (over fd made ∷ acts) more =
    ap (λ l. log_call made [] ++ l) (calls_of-append acts more)
    ∙ sym (append_assoc (log_call made []) (calls_of acts) (calls_of more))
calls_of-append (broke fd ∷ acts) more = calls_of-append acts more
calls_of-append (ended status ∷ acts) more = calls_of-append acts more

status_of-append :
    (old : ℕ) (acts more : List Act)
    → status_of old (acts ++ more) ≡ status_of (status_of old acts) more
unfolding status_of
status_of-append old [] more = refl
status_of-append old (joined fd ∷ acts) more = status_of-append old acts more
status_of-append old (missed ∷ acts) more = status_of-append old acts more
status_of-append old (said fd made ∷ acts) more = status_of-append old acts more
status_of-append old (over fd made ∷ acts) more = status_of-append old acts more
status_of-append old (broke fd ∷ acts) more = status_of-append old acts more
status_of-append old (ended status ∷ acts) more = status_of-append status acts more

log_call-append :
    (made : Option Call) (calls more : List Call)
    → log_call made calls ++ more ≡ calls ++ (log_call made [] ++ more)
unfolding log_call
log_call-append none calls more = refl
log_call-append (some made) calls more = append_assoc calls (made ∷ []) more

module _ (K : Kernel) (fuel : ℕ) (C : ServerCalls K) (context : Context)
    (server_sock child_pipe_output : ℕ) where
  abbrev pub IsClient : ℕ → Type 0
  IsClient fd = (fd ≢ server_sock) × (fd ≢ child_pipe_output)

  -- What an act leaves of the server's variables.
  unfoldable pub act : Act → Serving → Serving
  act (joined fd) st = record st { active = fd_set fd st.active }
  act missed st = st
  act (said fd made) st = record st { calls = log_call made st.calls }
  act (over fd made) st = record st { active = fd_clr fd st.active; calls = log_call made st.calls }
  act (broke fd) st = record st { active = fd_clr fd st.active }
  act (ended status) st = record st {
    active = fd_clr child_pipe_output st.active;
    child_exited = true;
    child_status = status;
  }

  module _ (reads errors : FdSet) where
    -- A watched descriptor that select(2) reported as ready, and without an error.
    abbrev pub IsReady : Serving → ℕ → Type 0
    IsReady st fd = (errors fd ≡ false) × (reads fd ≡ true) × (st.active fd ≡ true)

    -- A descriptor that select(2) did not report.
    abbrev pub IsIdle : ℕ → Type 0
    IsIdle fd = (errors fd ≡ false) × (reads fd ≡ false)

    -- The act of one reported descriptor, from one state of the system to the next: what was said is
    -- what `handle_message` makes of the bytes of that descriptor.
    pub data Step (st : Serving) (s : K.State) : ℕ → Act → K.State → Type 0 where
      accepting :
          {fd : ℕ} {t : K.State}
          → IsReady st server_sock
          → C.accept server_sock s ≡ (some fd, t)
          → fd < fd_setsize
          → Step st s server_sock (joined fd) t
      missing :
          {t : K.State}
          → IsReady st server_sock
          → C.accept server_sock s ≡ (none, t)
          → Step st s server_sock missed t
      saying :
          {fd : ℕ} {made : Option Call} {t : K.State}
          → IsReady st fd
          → IsClient fd
          → handle_message K fuel context fd s ≡ some ((success, made), t)
          → Step st s fd (said fd made) t
      leaving :
          {fd : ℕ} {made : Option Call} {t t' : K.State}
          → IsReady st fd
          → IsClient fd
          → handle_message K fuel context fd s ≡ some ((failure, made), t)
          → voyeur_close_socket K fuel fd t ≡ some (tt, t')
          → Step st s fd (over fd made) t'
      breaking :
          {fd : ℕ} {t : K.State}
          → errors fd ≡ true
          → st.active fd ≡ true
          → voyeur_close_socket K fuel fd s ≡ some (tt, t)
          → Step st s fd (broke fd) t
      ending :
          {status : ℕ} {t t' : K.State}
          → IsReady st child_pipe_output
          → child_pipe_output ≢ server_sock
          → voyeur_read_int_into K fuel child_pipe_output st.child_status s ≡ some (status, t)
          → voyeur_close_socket K fuel child_pipe_output t ≡ some (tt, t')
          → Step st s child_pipe_output (ended status) t'

    -- The acts after one call of select(2), at descriptors from one on: each that was reported has exactly
    -- one act, in ascending order.
    pub data Turn : ℕ → Serving → K.State → List Act → Serving → K.State → Type 0 where
      rest :
          {n : ℕ} {st : Serving} {s : K.State}
          → ((m : ℕ) → n ≤ m → m < fd_setsize → IsIdle m)
          → Turn n st s [] st s
      then_at :
          {n fd : ℕ} {a : Act} {acts : List Act} {st st' : Serving} {s t s' : K.State}
          → n ≤ fd
          → fd < fd_setsize
          → ((m : ℕ) → n ≤ m → m < fd → IsIdle m)
          → Step st s fd a t
          → Turn (suc fd) (act a st) t acts st' s'
          → Turn n st s (a ∷ acts) st' s'

    IsIdle-later :
        {n m : ℕ} (bound : ℕ)
        → IsIdle n
        → ((k : ℕ) → suc n ≤ k → k < bound → IsIdle k)
        → n ≤ m
        → m < bound
        → IsIdle m
    IsIdle-later {n} {m} bound idle later le lt = elim (Bool-cases (m == n)) [
      | inl same ↦ subst IsIdle (sym ((==_iff m n).0 same)) idle
      | inr other ↦ later m (ground arith) lt
    ]

    -- A turn can start at a descriptor that was not reported.
    pub Turn-lower :
        {n : ℕ} {acts : List Act} {st st' : Serving} {s s' : K.State}
        → IsIdle n
        → Turn (suc n) st s acts st' s'
        → Turn n st s acts st' s'
    Turn-lower idle (rest later) = rest (λ m le lt. IsIdle-later fd_setsize idle later le lt)
    Turn-lower idle (then_at {fd = fd} le lt later step more) =
        then_at (omega arith) lt (λ m le lt. IsIdle-later fd idle later le lt) step more

    pub Turn-calls :
        {n : ℕ} {acts : List Act} {st st' : Serving} {s s' : K.State}
        → Turn n st s acts st' s'
        → st'.calls ≡ st.calls ++ calls_of acts
    unfolding act calls_of
    Turn-calls {st = st} (rest later) = sym (append-nil st.calls)
    Turn-calls (then_at {a = joined fd} le lt later step more) = Turn-calls more
    Turn-calls (then_at {a = missed} le lt later step more) = Turn-calls more
    Turn-calls (then_at {a = said fd made} {st = st} le lt later step more) =
        Turn-calls more ∙ log_call-append made st.calls _
    Turn-calls (then_at {a = over fd made} {st = st} le lt later step more) =
        Turn-calls more ∙ log_call-append made st.calls _
    Turn-calls (then_at {a = broke fd} le lt later step more) = Turn-calls more
    Turn-calls (then_at {a = ended status} le lt later step more) = Turn-calls more

    pub Turn-status :
        {n : ℕ} {acts : List Act} {st st' : Serving} {s s' : K.State}
        → Turn n st s acts st' s'
        → st'.child_status ≡ status_of st.child_status acts
    unfolding act status_of
    Turn-status (rest later) = refl
    Turn-status (then_at {a = joined fd} le lt later step more) = Turn-status more
    Turn-status (then_at {a = missed} le lt later step more) = Turn-status more
    Turn-status (then_at {a = said fd made} le lt later step more) = Turn-status more
    Turn-status (then_at {a = over fd made} le lt later step more) = Turn-status more
    Turn-status (then_at {a = broke fd} le lt later step more) = Turn-status more
    Turn-status (then_at {a = ended status} le lt later step more) = Turn-status more

  -- A history of the server: calls of select(2), each with the acts at what it reported. It goes on while
  -- the child runs; the calls that fail are those that are made again.
  pub data Acts : Serving → K.State → List Act → Serving → K.State → Type 0 where
    done : {st : Serving} {s : K.State} → Acts st s [] st s
    again :
        {acts : List Act} {st st' : Serving} {s t s' : K.State} {e : Errno}
        → st.child_exited ≡ false
        → C.select st.active s ≡ (select_failed e, t)
        → retries_read e ≡ true
        → Acts st t acts st' s'
        → Acts st s acts st' s'
    turn :
        {acts more : List Act} {st st1 st' : Serving} {s t t1 s' : K.State} {reads errors : FdSet}
        → st.child_exited ≡ false
        → C.select st.active s ≡ (selected reads errors, t)
        → Turn reads errors 0 st t acts st1 t1
        → Acts st1 t1 more st' s'
        → Acts st s (acts ++ more) st' s'

  -- The log grows by the calls that the acts made.
  pub Acts-calls :
      {acts : List Act} {st st' : Serving} {s s' : K.State}
      → Acts st s acts st' s'
      → st'.calls ≡ st.calls ++ calls_of acts
  unfolding calls_of
  Acts-calls {st = st} done = sym (append-nil st.calls)
  Acts-calls (again running sel e run) = Acts-calls run
  Acts-calls
        (turn {acts = acts} {more = more} {st = st} {reads = reads} {errors = errors} running sel
          first run) =
      Acts-calls run
      ∙ ap (λ l. l ++ calls_of more) (Turn-calls reads errors first)
      ∙ append_assoc st.calls (calls_of acts) (calls_of more)
      ∙ ap (λ l. st.calls ++ l) (sym (calls_of-append acts more))

  pub Acts-status :
      {acts : List Act} {st st' : Serving} {s s' : K.State}
      → Acts st s acts st' s'
      → st'.child_status ≡ status_of st.child_status acts
  unfolding status_of
  Acts-status done = refl
  Acts-status (again running sel e run) = Acts-status run
  Acts-status
        (turn {acts = acts} {more = more} {st = st} {reads = reads} {errors = errors} running sel
          first run) =
      Acts-status run
      ∙ ap (λ n. status_of n more) (Turn-status reads errors first)
      ∙ sym (status_of-append st.child_status acts more)
