-- ===== src/Client/Threads/Shutdown.antt =====
-- voyeur-close.c in a process that ends while other threads call `close`.
use libvoyeur.Common.{
  ℕ, ◌≡◌, refl, sym, ap, ◌∙◌, Bool, true, false, Option, none, some, List, [], ◌∷◌, ◌++◌, arith,
  ◌>>=◌, length, length-append, ◌≢◌,
}
use libvoyeur.Kernel.{Kernel}
use libvoyeur.Client.{Process, libvoyeur_opts, libvoyeur_socket}
use libvoyeur.Net.Connect.{voyeur_create_client_socket}
use libvoyeur.Client.Close.{
  CloseStatics, close_statics, NextClose, init_close, call_next_close, voyeur_close,
  voyeur_cleanup_close,
}
use libvoyeur.Options.{voyeur_decode_options}
use libvoyeur.Event.{voyeur_event_close}
use libvoyeur.Client.Threads.{
  Shared, Steps, passes_test, forwards, has_mutex, destructs, elsewhere, none_yet, then_step,
  HasNext, init_close_lem, cleanup_close_lem, Steps-HasNext,
}

module _ (K : Kernel) (fuel : ℕ) (P : Process) (next : NextClose K) where
  -- However the threads of a process interleave that call `close`, run its destructor and do other
  -- things, from a start with the initial variables: a call that takes the mutex, and has set up
  -- the library if that was needed, calls the real `close`, and never a null pointer.
  pub locked_call :
      (fildes : ℕ) (c d : Shared K.State) (st : CloseStatics) (t : K.State)
      → c.statics ≡ close_statics
      → Steps K fuel P next c d
      → init_close K fuel P d.statics d.state ≡ some (st, t)
      → call_next_close K next st fildes t ≡ some (next fildes t)
  unfolding call_next_close
  locked_call fildes c d st t at_start steps e =
      let h : HasNext c.statics = λ i.
        (let clash : ◌≡◌ {A = Bool} false true = sym (ap (λ x. x.initialized) at_start) ∙ i in
          cc) in
      let (found, _) =
        init_close_lem K fuel P next d.statics st d.state t (Steps-HasNext K fuel P next steps h)
          e in
      rw (found, call_next_close) refl

  nothing_waits :
      (waiting before after : List ℕ) (fildes : ℕ)
      → waiting ≡ []
      → waiting ≢ before ++ (fildes ∷ after)
  nothing_waits waiting before after fildes e w =
      omega (arith, ap length e, ap length w, length-append before (fildes ∷ after))

  quiet-Steps :
      {c d : Shared K.State}
      → Steps K fuel P next c d
      → c.statics.finalized ≡ true
      → c.statics.initialized ≡ false
      → c.waiting ≡ []
      → (d.statics.finalized ≡ true) × (d.statics.initialized ≡ false) × (d.waiting ≡ [])
  quiet-Steps none_yet f i w = (f, i, w)
  quiet-Steps {c = c} (then_step (passes_test fildes going) more) f i w =
      let clash : ◌≡◌ {A = Bool} false true = sym going ∙ f in cc
  quiet-Steps (then_step (forwards fildes over e) more) f i w = quiet-Steps more f i w
  quiet-Steps (then_step (elsewhere t) more) f i w = quiet-Steps more f i w
  quiet-Steps {c = c} (then_step (has_mutex before fildes after there e) more) f i w =
      absurd (nothing_waits c.waiting before after fildes w there)
  quiet-Steps {c = c} (then_step (destructs e) more) f i w =
      let (f', i', _) = cleanup_close_lem K fuel P next c.statics _ c.state _ e in
      quiet-Steps more f' i' w

  -- Where the destructor of the `close` library runs while no call is between its test of
  -- `voyeur_close_finalized` and the mutex, then however the threads go on, the library stays
  -- finalized and is never initialized again, and no call waits for the mutex.
  pub quiet_end :
      (c d : Shared K.State) (st : CloseStatics) (t : K.State)
      → c.waiting ≡ []
      → voyeur_cleanup_close K fuel c.statics c.state ≡ some (st, t)
      → Steps K fuel P next (record c { statics = st; state = t }) d
      → (d.statics.finalized ≡ true) × (d.statics.initialized ≡ false) × (d.waiting ≡ [])
  quiet_end c d st t no_one ran steps =
      let (f, i, _) = cleanup_close_lem K fuel P next c.statics st c.state t ran in
      quiet-Steps steps f i no_one

  -- Where the next function was never looked up, a library that is finalized never looks it up.
  null-Steps :
      {c d : Shared K.State}
      → Steps K fuel P next c d
      → c.statics.finalized ≡ true
      → c.statics.initialized ≡ false
      → c.statics.looked_up ≡ false
      → c.waiting ≡ []
      → (d.statics.finalized ≡ true) × (d.statics.looked_up ≡ false)
  null-Steps none_yet f i l w = (f, l)
  null-Steps {c = c} (then_step (passes_test fildes going) more) f i l w =
      let clash : ◌≡◌ {A = Bool} false true = sym going ∙ f in cc
  null-Steps (then_step (forwards fildes over e) more) f i l w = null-Steps more f i l w
  null-Steps (then_step (elsewhere t) more) f i l w = null-Steps more f i l w
  null-Steps {c = c} (then_step (has_mutex before fildes after there e) more) f i l w =
      absurd (nothing_waits c.waiting before after fildes w there)
  null-Steps {c = c} (then_step (destructs e) more) f i l w =
      let (f', i', l') = cleanup_close_lem K fuel P next c.statics _ c.state _ e in
      null-Steps more f' i' (l' ∙ l) w

  null_close :
      (fildes : ℕ) (st : CloseStatics) (s : K.State)
      → st.finalized ≡ true
      → st.looked_up ≡ false
      → voyeur_close K fuel P next fildes st s ≡ none
  unfolding voyeur_close call_next_close
  null_close fildes st s f l = rw f (rw (l, ◌>>=◌) refl)

  -- In a process whose first call of `close` comes after the destructor of the `close` library,
  -- however its threads go on after the destructor, call `close`, run the destructor again or do
  -- other things: every later call of `close` goes through a null pointer. The variables are the
  -- initial ones when the destructor runs, and no call is between its test of
  -- `voyeur_close_finalized` and the mutex.
  pub close_after_end :
      (fildes : ℕ) (c d : Shared K.State) (st : CloseStatics) (t : K.State)
      → c.statics ≡ close_statics
      → c.waiting ≡ []
      → voyeur_cleanup_close K fuel c.statics c.state ≡ some (st, t)
      → Steps K fuel P next (record c { statics = st; state = t }) d
      → voyeur_close K fuel P next fildes d.statics d.state ≡ none
  close_after_end fildes c d st t at_start no_one ran steps =
      let (f, i, l) = cleanup_close_lem K fuel P next c.statics st c.state t ran in
      let fresh : c.statics.looked_up ≡ false = ap (λ x. x.looked_up) at_start in
      let (f', l') = null-Steps steps f i (l ∙ fresh) no_one in
      null_close fildes d.statics d.state f' l'

  -- The destructor can run while a call is between the test and the mutex: the call then finds the library
  -- finalized and not initialized, and makes a new connection, which nothing ends.
  pub late_call :
      (fildes : ℕ) (c : Shared K.State) (st : CloseStatics) (sock : Option ℕ) (path : List ℕ)
      (s t : K.State)
      → c.statics.finalized ≡ false
      → voyeur_cleanup_close K fuel c.statics c.state ≡ some (st, s)
      → P.getenv libvoyeur_socket ≡ some path
      → voyeur_create_client_socket K (some path) s ≡ some (sock, t)
      → (after : CloseStatics) × (init_close K fuel P st s ≡ some (after, t))
        × Steps K fuel P next c (record c { statics = st; waiting = fildes ∷ c.waiting; state = s })
        × (after.finalized ≡ true)
        × (after.initialized ≡ true)
        × (after.sock ≡ sock)
  unfolding init_close
  late_call fildes c st sock path s t going ran has_path connected =
      let (f, i, _) = cleanup_close_lem K fuel P next c.statics st c.state s ran in
      (
        record st {
          initialized = true;
          opts = voyeur_decode_options (P.getenv libvoyeur_opts) voyeur_event_close;
          sock = sock;
          looked_up = true;
        },
        rw (i, init_close) (rw (has_path, connected, ◌>>=◌) refl),
        then_step (passes_test fildes going) (then_step (destructs ran) none_yet),
        f,
        refl,
        refl,
      )
