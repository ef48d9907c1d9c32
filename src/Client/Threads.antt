-- ===== src/Client/Threads.antt =====
-- voyeur-close.c with several threads: a call of `close` tests `voyeur_close_finalized` before it takes the
-- mutex, so that the destructor can run between the two.
pub mod Shutdown
use libvoyeur.Common.{
  ℕ, ◌+◌, ◌≡◌, refl, sym, ap, ◌∙◌, Bool, true, false, Option, none, some, List, [], ◌∷◌, ◌++◌,
  arith, M, pure, call, ◌>>=◌, >>=-eq-some, Bool-cases, inl, inr, length, length-append, ◌≢◌,
  if◌then◌else◌,
}
use libvoyeur.Kernel.{Kernel}
use libvoyeur.Client.{Process, libvoyeur_opts, libvoyeur_socket, when_sock}
use libvoyeur.Net.Connect.{voyeur_create_client_socket}
use libvoyeur.Client.Close.{
  CloseStatics, close_statics, NextClose, init_close, call_next_close, close_initialized,
  voyeur_close, voyeur_cleanup_close, write_close_event,
}
use libvoyeur.Client.Open.{say_done}
use libvoyeur.Options.{voyeur_decode_options}
use libvoyeur.Event.{voyeur_event_close}

-- The calls that have passed the test and wait for the mutex are those of `waiting`, by their descriptor.
pub record Shared (S : Type 0) : Type 0 where
  pub statics : CloseStatics
  pub waiting : List ℕ
  pub state : S

module _ (K : Kernel) (fuel : ℕ) (P : Process) (next : NextClose K) where
  -- What a call does once it has the mutex.
  unfoldable pub close_locked : ℕ → CloseStatics → M K.State (ℕ × CloseStatics)
  close_locked fildes st = init_close K fuel P st >>= close_initialized K fuel P next fildes

  -- A step of one of the threads. Other code of the process may change the state at any time.
  pub data Step : Shared K.State → Shared K.State → Type 0 where
    passes_test :
        (fildes : ℕ) {c : Shared K.State}
        → c.statics.finalized ≡ false
        → Step c (record c { waiting = fildes ∷ c.waiting })
    forwards :
        (fildes : ℕ) {retval : ℕ} {t : K.State} {c : Shared K.State}
        → c.statics.finalized ≡ true
        → call_next_close K next c.statics fildes c.state ≡ some (retval, t)
        → Step c (record c { state = t })
    has_mutex :
        (before : List ℕ) (fildes : ℕ) (after : List ℕ) {retval : ℕ} {st : CloseStatics}
        {t : K.State} {c : Shared K.State}
        → c.waiting ≡ before ++ (fildes ∷ after)
        → close_locked fildes c.statics c.state ≡ some ((retval, st), t)
        → Step c (record { statics = st; waiting = before ++ after; state = t })
    destructs :
        {st : CloseStatics} {t : K.State} {c : Shared K.State}
        → voyeur_cleanup_close K fuel c.statics c.state ≡ some (st, t)
        → Step c (record c { statics = st; state = t })
    elsewhere : (t : K.State) {c : Shared K.State} → Step c (record c { state = t })

  pub data Steps : Shared K.State → Shared K.State → Type 0 where
    none_yet : {c : Shared K.State} → Steps c c
    then_step : {c d e : Shared K.State} → Step c d → Steps d e → Steps c e

  -- A call with no other thread in between is the test and then the rest.
  close_alone :
      (fildes : ℕ) (st : CloseStatics) (s : K.State)
      → st.finalized ≡ false
      → voyeur_close K fuel P next fildes st s ≡ close_locked fildes st s
  unfolding voyeur_close close_locked
  close_alone fildes st s going = rw (going, voyeur_close) refl

-- The pointer to the next function is set with `voyeur_close_initialized`, and never reset.
abbrev pub HasNext : CloseStatics → Type 0
HasNext st = st.initialized ≡ true → st.looked_up ≡ true

module _ (K : Kernel) (fuel : ℕ) (P : Process) (next : NextClose K) where
  pub init_close_lem :
      (st st' : CloseStatics) (s t : K.State)
      → HasNext st
      → init_close K fuel P st s ≡ some (st', t)
      → (st'.looked_up ≡ true) × (st'.finalized ≡ st.finalized)
  unfolding init_close
  init_close_lem st st' s t h e = elim (Bool-cases st.initialized) [
    | inl ready ↦
        let same = ap (λ o. elim o [ none ↦ st | some p ↦ p.0 ]) (rw ready at e) in
        (sym (ap (λ x. x.looked_up) same) ∙ h ready, sym (ap (λ x. x.finalized) same))
    | inr fresh ↦
        let (sock, s1, _, e1) =
          >>=-eq-some (voyeur_create_client_socket K (P.getenv libvoyeur_socket)) _ s
            (rw (fresh, init_close) at e) in
        let same = ap (λ o. elim o [ none ↦ st | some p ↦ p.0 ]) e1 in
        (sym (ap (λ x. x.looked_up) same), sym (ap (λ x. x.finalized) same))
  ]

  close_initialized_lem :
      (fildes retval : ℕ) (st st' : CloseStatics) (s t : K.State)
      → close_initialized K fuel P next fildes st s ≡ some ((retval, st'), t)
      → st' ≡ st
  unfolding close_initialized
  close_initialized_lem fildes retval st st' s t e =
      let (r, s1, _, e1) = >>=-eq-some (call_next_close K next st fildes) _ s e in
      let (_, s2, _, e2) =
        >>=-eq-some (when_sock st.sock λ sock. write_close_event K fuel P sock fildes r)
          (λ _. pure (r, st)) s1 e1 in
      cc

  close_locked_lem :
      (fildes retval : ℕ) (st st' : CloseStatics) (s t : K.State)
      → HasNext st
      → close_locked K fuel P next fildes st s ≡ some ((retval, st'), t)
      → (st'.looked_up ≡ true) × (st'.finalized ≡ st.finalized)
  unfolding close_locked
  close_locked_lem fildes retval st st' s t h e =
      let (st1, s1, e1, e2) =
        >>=-eq-some (init_close K fuel P st) (close_initialized K fuel P next fildes) s e in
      let same = close_initialized_lem fildes retval st1 st' s1 t e2 in
      rw same (init_close_lem st st1 s s1 h e1)

  pub cleanup_close_lem :
      (st st' : CloseStatics) (s t : K.State)
      → voyeur_cleanup_close K fuel st s ≡ some (st', t)
      → (st'.finalized ≡ true) × (st'.initialized ≡ false) × (st'.looked_up ≡ st.looked_up)
  unfolding voyeur_cleanup_close
  cleanup_close_lem st st' s t e = elim (Bool-cases st.initialized) [
    | inl ready ↦
        let (sock, s1, _, e1) =
          >>=-eq-some (say_done K fuel st.sock) _ s (rw (ready, voyeur_cleanup_close) at e) in
        let same = ap (λ o. elim o [ none ↦ st | some p ↦ p.0 ]) e1 in
        (
          sym (ap (λ x. x.finalized) same),
          sym (ap (λ x. x.initialized) same),
          sym (ap (λ x. x.looked_up) same),
        )
    | inr fresh ↦
        let same = ap (λ o. elim o [ none ↦ st | some p ↦ p.0 ]) (rw fresh at e) in
        (
          sym (ap (λ x. x.finalized) same),
          sym (ap (λ x. x.initialized) same),
          sym (ap (λ x. x.looked_up) same),
        )
  ]

  pub Steps-HasNext :
      {c d : Shared K.State} → Steps K fuel P next c d → HasNext c.statics → HasNext d.statics
  Steps-HasNext none_yet h = h
  Steps-HasNext (then_step (passes_test fildes going) more) h = Steps-HasNext more h
  Steps-HasNext (then_step (forwards fildes over e) more) h = Steps-HasNext more h
  Steps-HasNext (then_step (elsewhere t) more) h = Steps-HasNext more h
  Steps-HasNext {c = c} (then_step (has_mutex before fildes after w e) more) h =
      Steps-HasNext more (λ _. (close_locked_lem fildes _ c.statics _ c.state _ h e).0)
  Steps-HasNext {c = c} (then_step (destructs e) more) h = Steps-HasNext more (λ i.
      let (_, off, _) = cleanup_close_lem c.statics _ c.state _ e in
      let clash : ◌≡◌ {A = Bool} false true = sym off ∙ i in cc)
