-- ===== src/Net/Write.antt =====
-- The loop of `do_write` (net.c) over a reliable stream.
use libvoyeur.Common.{
  ℕ, zero, suc, ◌+◌, ◌≤◌, ◌≡◌, refl, sym, ◌∙◌, true, List, [], ◌∷◌, arith, append-nil, append_assoc,
  M, length, drop, length-drop, take-append-drop,
}
use libvoyeur.Kernel.{
  eagain, ewouldblock, eintr, other_errno, SendOutcome, sent_count, send_failed, Kernel, View, Took,
  IsReliable,
}
use libvoyeur.Net.{Status, success, retries_send, after_send, write_loop, do_write}
use libvoyeur.Net.Stream.{HasSent, Sends}

module _ {K : Kernel} {V : View K} (L : IsReliable V) (fd : ℕ) where
  -- The rest of a write after one call of send(2), given the rest of the loop.
  after_send_lem :
      {fuel : ℕ} (buf : List ℕ) (s : K.State) (again : List ℕ → M K.State Status)
      → ((rest : List ℕ) (t : K.State)
          → V.up t fd ≡ true
          → length rest + V.delays t ≤ fuel
          → HasSent V fd t rest success (again rest t))
      → length buf + V.delays s ≤ suc fuel
      → (o : SendOutcome × K.State) → Took V s fd buf o
      → HasSent V fd s buf success (after_send again buf o.0 o.1)
  unfolding after_send retries_send
  after_send_lem buf s again ih h (sent_count n, t) (n0, n1, sent, u, d) =
      let (t', e, sent', u', d') = ih (drop n buf) t u (omega (arith, length-drop n buf)) in
      (t', e, sent' ∙ rw (sent, append_assoc, take-append-drop) refl, u', omega arith)
  after_send_lem buf s again ih h (send_failed eagain, t) (sent, u, d) =
      let (t', e, sent', u', d') = ih buf t u (omega arith) in
      (t', e, rw sent at sent', u', omega arith)
  after_send_lem buf s again ih h (send_failed ewouldblock, t) (sent, u, d) =
      let (t', e, sent', u', d') = ih buf t u (omega arith) in
      (t', e, rw sent at sent', u', omega arith)
  after_send_lem buf s again ih h (send_failed eintr, t) (sent, u, d) =
      let (t', e, sent', u', d') = ih buf t u (omega arith) in
      (t', e, rw sent at sent', u', omega arith)
  after_send_lem buf s again ih h (send_failed other_errno, t) no_case = absurd no_case

  write_loop_lem :
      (fuel : ℕ) (buf : List ℕ) (s : K.State)
      → V.up s fd ≡ true
      → length buf + V.delays s ≤ fuel
      → HasSent V fd s buf success (write_loop K fuel fd buf s)
  unfolding write_loop
  write_loop_lem zero [] s u h = (s, refl, sym (append-nil _), u, omega arith)
  write_loop_lem (suc fuel) [] s u h = (s, refl, sym (append-nil _), u, omega arith)
  write_loop_lem zero (b ∷ bs) s u h = absurd (omega arith)
  write_loop_lem (suc fuel) (b ∷ bs) s u h =
      after_send_lem (b ∷ bs) s _ (write_loop_lem fuel) h (K.send fd (b ∷ bs) s)
        (L.send_law s fd (b ∷ bs) u (omega arith))

  -- On a connected stream that keeps the promises of a stream socket, with fuel for each byte and
  -- each temporary error, `do_write` ends and returns 0, and the peer has been handed exactly the
  -- buffer, in order, whatever the sizes of the pieces that send(2) takes.
  pub do_write_lem :
      (fuel : ℕ) (buf : List ℕ) (s : K.State)
      → V.up s fd ≡ true
      → length buf + V.delays s ≤ fuel
      → HasSent V fd s buf success (do_write K fuel fd buf s)
  unfolding do_write
  do_write_lem fuel buf s u h = write_loop_lem fuel buf s u h

  pub do_write-Sends :
      (fuel : ℕ) (buf : List ℕ) → Sends V fuel fd buf success (do_write K fuel fd buf)
  do_write-Sends fuel buf = record { run = do_write_lem fuel buf }
