-- ===== src/Net/Connect.antt =====
-- `voyeur_create_client_socket` and `voyeur_close_socket` of net.c. The flags that are set on the
-- socket, and the address family, are left out.
use libvoyeur.Common.{
  ℕ, zero, suc, ◌+◌, ◌-◌, ◌*◌, ◌/◌, ◌≤◌, ◌<◌, ◌≡◌, ◌≢◌, refl, ◌∙◌, Bool, true, false, Option, none,
  some, List, arith, M, pure, call, ◌>>=◌, take,
}
use libvoyeur.Kernel.{
  eagain, ewouldblock, eintr, other_errno, CloseOutcome, closed, close_failed, Kernel, View, Closed,
  IsReliable,
}

abbrev pub connect_retries : ℕ
connect_retries = 20

abbrev pub connect_wait_ms : ℕ
connect_wait_ms = 50

abbrev pub connect_deviation_ms : ℕ
connect_deviation_ms = 20

-- `sizeof(sockinfo.sun_path)`
abbrev pub sun_path_size : ℕ
sun_path_size = 108

-- The argument of usleep(3), for a random number below the deviation.
unfoldable pub wait_us : ℕ → ℕ
wait_us r = (connect_wait_ms - connect_deviation_ms / 2 + r) * 1000

module _ (K : Kernel) (sock : Option ℕ) (path : List ℕ) where
  -- The `while` loop: `left` is how often `++try < CONNECT_RETRIES` still holds.
  unfoldable pub connect_loop : ℕ → Bool → K.State → K.State
  connect_loop left true s = s
  connect_loop zero false s = s
  connect_loop (suc left) false s =
      let (r, s') = K.arc4random_uniform connect_deviation_ms s in
      let (connected, t) = K.connect sock path (K.usleep (wait_us r) s') in
      connect_loop left connected t

  unfoldable pub connect_socket : K.State → K.State
  connect_socket s =
      let (connected, t) = K.connect sock path s in connect_loop (connect_retries - 1) connected t

module _ (K : Kernel) where
  -- The result is the descriptor of the socket, and does not say whether it was connected.
  unfoldable pub voyeur_create_client_socket : Option (List ℕ) → M K.State (Option ℕ)
  voyeur_create_client_socket none = λ s. none
  voyeur_create_client_socket (some sockpath) = λ s.
      let (sock, t) = K.socket s in
      some (sock, connect_socket K sock (take (sun_path_size - 1) sockpath) t)

module _ {S : Type 0} where
  unfoldable pub after_close : M S (Unit {0}) → CloseOutcome → M S (Unit {0})
  after_close again closed = pure tt
  after_close again (close_failed eintr) = again
  after_close again (close_failed eagain) = pure tt
  after_close again (close_failed ewouldblock) = pure tt
  after_close again (close_failed other_errno) = pure tt

module _ (K : Kernel) where
  unfoldable pub voyeur_close_socket : ℕ → ℕ → M K.State (Unit {0})
  voyeur_close_socket zero fd = λ s. none
  voyeur_close_socket (suc fuel) fd =
      call (K.close fd) >>= after_close (voyeur_close_socket fuel fd)

-- A number of the state that `connect` raises by one and the other calls leave alone.
pub record Counts (K : Kernel) (tries : K.State → ℕ) : Type 0 where
  pub connect_counts :
      (sock : Option ℕ) (path : List ℕ) (s : K.State)
      → tries (K.connect sock path s).1 ≡ tries s + 1
  pub socket_counts : (s : K.State) → tries (K.socket s).1 ≡ tries s
  pub usleep_counts : (n : ℕ) (s : K.State) → tries (K.usleep n s) ≡ tries s
  pub random_counts : (n : ℕ) (s : K.State) → tries (K.arc4random_uniform n s).1 ≡ tries s

module _ {K : Kernel} {tries : K.State → ℕ} (C : Counts K tries) where
  connect_loop_tries :
      (sock : Option ℕ) (path : List ℕ) (left : ℕ) (connected : Bool) (s : K.State)
      → tries (connect_loop K sock path left connected s) ≤ tries s + left
  unfolding connect_loop
  connect_loop_tries sock path zero true s = omega arith
  connect_loop_tries sock path (suc left) true s = omega arith
  connect_loop_tries sock path zero false s = omega arith
  connect_loop_tries sock path (suc left) false s =
      let drawn = K.arc4random_uniform connect_deviation_ms s in
      let slept = K.usleep (wait_us drawn.0) drawn.1 in
      let next = K.connect sock path slept in
      omega (
        arith,
        C.random_counts connect_deviation_ms s,
        C.usleep_counts (wait_us drawn.0) drawn.1,
        C.connect_counts sock path slept,
        connect_loop_tries sock path left next.0 next.1,
      )

  -- `voyeur_create_client_socket` answers the descriptor that socket(2) gave after at most 20 calls
  -- of connect(2), whether or not one of them succeeded. The number of tries is counted by a number
  -- that connect(2) raises by one and the other calls leave alone.
  pub create_client_socket_lem :
      (sockpath : List ℕ) (s : K.State)
      → (t : K.State) × (voyeur_create_client_socket K (some sockpath) s ≡ some ((K.socket s).0, t))
        × (tries t ≤ tries s + connect_retries)
  unfolding voyeur_create_client_socket connect_socket
  create_client_socket_lem sockpath s =
      let sock = K.socket s in
      let path : List ℕ = take (sun_path_size - 1) sockpath in
      let first = K.connect sock.0 path sock.1 in
      (
        _,
        refl,
        omega (
          arith,
          C.socket_counts s,
          C.connect_counts sock.0 path sock.1,
          connect_loop_tries sock.0 path (connect_retries - 1) first.0 first.1,
        ),
      )

module _ {K : Kernel} {V : View K} (L : IsReliable V) (fd : ℕ) where
  -- The socket was closed once the call returned, and what was sent on it stays sent.
  abbrev pub HasClosed : K.State → Option (Unit {0} × K.State) → Type 0
  HasClosed s r =
      (t : K.State) × (r ≡ some (tt, t)) × (V.sent t fd ≡ V.sent s fd) × (V.delays t ≤ V.delays s)

  after_close_lem :
      {fuel : ℕ} (s : K.State) (again : M K.State (Unit {0}))
      → ((t : K.State) → V.delays t < fuel → HasClosed t (again t))
      → V.delays s < suc fuel
      → (o : CloseOutcome × K.State) → Closed V s fd o
      → HasClosed s (after_close again o.0 o.1)
  unfolding after_close
  after_close_lem s again ih h (closed, t) (e, d) = (t, refl, e, d)
  after_close_lem s again ih h (close_failed eintr, t) (e, d) =
      let (t', r, e', d') = ih t (omega arith) in (t', r, e' ∙ e, omega arith)
  after_close_lem s again ih h (close_failed eagain, t) (e, d) = (t, refl, e, d)
  after_close_lem s again ih h (close_failed ewouldblock, t) (e, d) = (t, refl, e, d)
  after_close_lem s again ih h (close_failed other_errno, t) (e, d) = (t, refl, e, d)

  pub close_socket_lem :
      (fuel : ℕ) (s : K.State) → V.delays s < fuel → HasClosed s (voyeur_close_socket K fuel fd s)
  unfolding voyeur_close_socket
  close_socket_lem zero s h = absurd (omega arith)
  close_socket_lem (suc fuel) s h =
      after_close_lem s _ (close_socket_lem fuel) h (K.close fd s) (L.close_law s fd)

  -- From the first state to the second by calls of close(2) that were interrupted.
  pub data Interrupted : K.State → K.State → Type 0 where
    not_once : {s : K.State} → Interrupted s s
    once_more :
        {s t u : K.State}
        → K.close fd s ≡ (close_failed eintr, t)
        → Interrupted t u
        → Interrupted s u

  -- After interrupted calls only, one that is not interrupted is the last one.
  abbrev pub HasRetried : K.State → Option (Unit {0} × K.State) → Type 0
  HasRetried s r =
      (u : K.State) × (t : K.State) × (o : CloseOutcome) × Interrupted s u
      × (K.close fd u ≡ (o, t))
      × (o ≢ close_failed eintr)
      × (r ≡ some (tt, t))

  after_close-HasRetried :
      {fuel : ℕ} (s : K.State) (again : M K.State (Unit {0}))
      → ((t : K.State) → V.delays t < fuel → HasRetried t (again t))
      → V.delays s < suc fuel
      → (o : CloseOutcome × K.State) → K.close fd s ≡ o
      → Closed V s fd o
      → HasRetried s (after_close again o.0 o.1)
  unfolding after_close
  after_close-HasRetried s again ih h (closed, t) e (kept, d) =
      (s, t, closed, not_once, e, (λ q. cc), refl)
  after_close-HasRetried s again ih h (close_failed eintr, t) e (kept, d) =
      let (u, t', o, run, e', ne, r) = ih t (omega arith) in (u, t', o, once_more e run, e', ne, r)
  after_close-HasRetried s again ih h (close_failed eagain, t) e (kept, d) =
      (s, t, close_failed eagain, not_once, e, (λ q. cc), refl)
  after_close-HasRetried s again ih h (close_failed ewouldblock, t) e (kept, d) =
      (s, t, close_failed ewouldblock, not_once, e, (λ q. cc), refl)
  after_close-HasRetried s again ih h (close_failed other_errno, t) e (kept, d) =
      (s, t, close_failed other_errno, not_once, e, (λ q. cc), refl)

  -- `voyeur_close_socket` ends, in the state that a last call of close(2) leaves: the calls before
  -- it, and no others, were interrupted, and it was not. The calls are interrupted only so often,
  -- and there is fuel for one more.
  pub close_socket_retries :
      (fuel : ℕ) (s : K.State) → V.delays s < fuel → HasRetried s (voyeur_close_socket K fuel fd s)
  unfolding voyeur_close_socket
  close_socket_retries zero s h = absurd (omega arith)
  close_socket_retries (suc fuel) s h =
      after_close-HasRetried s _ (close_socket_retries fuel) h (K.close fd s) refl
        (L.close_law s fd)
