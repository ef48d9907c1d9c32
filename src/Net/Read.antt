-- ===== src/Net/Read.antt =====
-- The loop of `do_read` (net.c) over a reliable stream, and at its end.
use libvoyeur.Common.{
  ℕ, zero, suc, ◌+◌, ◌-◌, ◌^◌, ◌≤◌, ◌<◌, ◌≡◌, refl, sym, ap, ◌∙◌, true, none, some, List, [], ◌∷◌,
  ◌++◌, arith, ◌>>=◌, append-nil, append_assoc, M, length, length-append, lt→ltb,
}
use libvoyeur.Kernel.{
  eagain, ewouldblock, eintr, other_errno, ReadOutcome, received, read_failed, Kernel, View, Gave,
  IsReliable,
}
use libvoyeur.Net.{
  Status, success, failure, retries_read, after_read, read_loop, do_read_stored, do_read, filled,
}
use libvoyeur.Net.Stream.{HasRead, Reads}

-- Where one stream is cut in two ways, the longer front continues the shorter one.
split :
    (xs ys us vs : List ℕ)
    → length xs ≤ length ys
    → xs ++ us ≡ ys ++ vs
    → (more : List ℕ) × (ys ≡ xs ++ more) × (us ≡ more ++ vs)
split [] ys us vs h e = (ys, refl, e)
split (x ∷ xs) [] us vs h e = absurd (omega arith)
split (x ∷ xs) (y ∷ ys) us vs h e =
    let (more, p, q) = split xs ys us vs (omega arith) (cc) in (more, cc, q)

module _ {K : Kernel} {V : View K} (L : IsReliable V) (fd : ℕ) where
  after_read_lem :
      {fuel : ℕ} (bytes rest buf : List ℕ) (s : K.State)
      (again : ℕ → List ℕ → M K.State (Status × List ℕ))
      → ((more buf : List ℕ) (t : K.State)
          → V.up t fd ≡ true
          → V.incoming t fd ≡ more ++ rest
          → length more + V.delays t ≤ fuel
          → HasRead V fd t rest (success, buf ++ more) (again (length more) buf t))
      → 0 < length bytes
      → V.incoming s fd ≡ bytes ++ rest
      → length bytes + V.delays s ≤ suc fuel
      → (o : ReadOutcome × K.State) → Gave V s fd (length bytes) o
      → HasRead V fd s rest (success, buf ++ bytes) (after_read again (length bytes) buf o.0 o.1)
  unfolding after_read retries_read
  after_read_lem bytes rest buf s again ih pos i h (received [], t) (empty, _, _, _) =
      absurd (omega (arith, ap length (sym i ∙ empty), length-append bytes rest))
  after_read_lem bytes rest buf s again ih pos i h (received (b ∷ bs), t) (n, i', u, d) =
      let got : List ℕ = b ∷ bs in
      let (more, e, e') = split got bytes (V.incoming t fd) rest n (sym i' ∙ i) in
      let len : length bytes ≡ length got + length more =
        omega (arith, ap length e, length-append got more) in
      let (t', r, i'', u', d') = ih more (buf ++ got) t u e' (omega arith) in
      let left : length bytes - length got ≡ length more = omega arith in
      let joined : (buf ++ got) ++ more ≡ buf ++ bytes =
        append_assoc buf got more ∙ ap (λ l. buf ++ l) (sym e) in
      (t', rw left (r ∙ ap (λ l. some ((success, l), t')) joined), i'', u', omega arith)
  after_read_lem bytes rest buf s again ih pos i h (read_failed eagain, t) (i', u, d) =
      let (t', e, left, u', d') = ih bytes buf t u (i' ∙ i) (omega arith) in
      (t', e, left, u', omega arith)
  after_read_lem bytes rest buf s again ih pos i h (read_failed eintr, t) (i', u, d) =
      let (t', e, left, u', d') = ih bytes buf t u (i' ∙ i) (omega arith) in
      (t', e, left, u', omega arith)
  after_read_lem bytes rest buf s again ih pos i h (read_failed ewouldblock, t) no_case =
      absurd no_case
  after_read_lem bytes rest buf s again ih pos i h (read_failed other_errno, t) no_case =
      absurd no_case

  read_loop_lem :
      (fuel : ℕ) (rest bytes buf : List ℕ) (s : K.State)
      → V.up s fd ≡ true
      → V.incoming s fd ≡ bytes ++ rest
      → length bytes + V.delays s ≤ fuel
      → HasRead V fd s rest (success, buf ++ bytes) (read_loop K fuel fd (length bytes) buf s)
  unfolding read_loop
  read_loop_lem zero rest [] buf s u i h = (s, rw append-nil refl, i, u, omega arith)
  read_loop_lem (suc fuel) rest [] buf s u i h = (s, rw append-nil refl, i, u, omega arith)
  read_loop_lem zero rest (b ∷ bs) buf s u i h = absurd (omega arith)
  read_loop_lem (suc fuel) rest (b ∷ bs) buf s u i h =
      after_read_lem (b ∷ bs) rest buf s _ (read_loop_lem fuel rest) (omega arith) i h
        (K.read fd (length (b ∷ bs)) s) (L.read_law s fd (length (b ∷ bs)) u (omega arith))

  pub do_read_stored_lem :
      (fuel : ℕ) (bytes : List ℕ) (s : K.State) (rest : List ℕ)
      → length bytes < 2 ^ 63
      → V.up s fd ≡ true
      → V.incoming s fd ≡ bytes ++ rest
      → length bytes + V.delays s ≤ fuel
      → HasRead V fd s rest (success, bytes) (do_read_stored K fuel fd (length bytes) s)
  unfolding do_read_stored
  do_read_stored_lem fuel bytes s rest fits u i h =
      rw (lt→ltb _ _ fits) (read_loop_lem fuel rest bytes [] s u i h)

  -- On a connected stream that keeps the promises of a stream socket, with fuel for each byte and
  -- each temporary error, `do_read` of so many bytes, fewer than 2^63, ends and stores exactly the
  -- next bytes, and leaves the rest, however the bytes arrive.
  pub do_read_lem :
      (fuel : ℕ) (bytes : List ℕ) (s : K.State) (rest : List ℕ)
      → length bytes < 2 ^ 63
      → V.up s fd ≡ true
      → V.incoming s fd ≡ bytes ++ rest
      → length bytes + V.delays s ≤ fuel
      → HasRead V fd s rest (some bytes) (do_read K fuel fd (length bytes) s)
  unfolding do_read filled
  do_read_lem fuel bytes s rest fits u i h =
      let (t, e, left, u', d) = do_read_stored_lem fuel bytes s rest fits u i h in
      (t, rw (e, do_read, ◌>>=◌) refl, left, u', d)

  pub do_read-Reads :
      (fuel : ℕ) (bytes : List ℕ)
      → length bytes < 2 ^ 63
      → Reads V fuel fd bytes (some bytes) (do_read K fuel fd (length bytes))
  do_read-Reads fuel bytes fits = record {
    run = λ s rest u i h. do_read_lem fuel bytes s rest fits u i h;
  }

  after_read_eof :
      {fuel : ℕ} (n : ℕ) (buf : List ℕ) (s : K.State)
      (again : ℕ → List ℕ → M K.State (Status × List ℕ))
      → ((n : ℕ) (buf : List ℕ) (t : K.State)
          → V.up t fd ≡ true
          → length (V.incoming t fd) < n
          → length (V.incoming t fd) + V.delays t < fuel
          → HasRead V fd t [] (failure, buf ++ V.incoming t fd) (again n buf t))
      → length (V.incoming s fd) < n
      → length (V.incoming s fd) + V.delays s < suc fuel
      → (o : ReadOutcome × K.State) → Gave V s fd n o
      → HasRead V fd s [] (failure, buf ++ V.incoming s fd) (after_read again n buf o.0 o.1)
  unfolding after_read retries_read
  after_read_eof n buf s again ih short h (received [], t) (empty, end, u, d) =
      (t, rw (empty, append-nil) refl, end, u, d)
  after_read_eof n buf s again ih short h (received (b ∷ bs), t) (k, i, u, d) =
      let len : length (V.incoming s fd) ≡ length (b ∷ bs) + length (V.incoming t fd) =
        ap length i ∙ length-append (b ∷ bs) (V.incoming t fd) in
      let (t', r, end, u', d') =
        ih (n - length (b ∷ bs)) (buf ++ (b ∷ bs)) t u (omega arith) (omega arith) in
      let stored : (buf ++ (b ∷ bs)) ++ V.incoming t fd ≡ buf ++ V.incoming s fd =
        append_assoc buf (b ∷ bs) (V.incoming t fd) ∙ ap (λ l. buf ++ l) (sym i) in
      (t', r ∙ ap (λ l. some ((failure, l), t')) stored, end, u', omega arith)
  after_read_eof n buf s again ih short h (read_failed eagain, t) (i, u, d) =
      let (t', r, end, u', d') = ih n buf t u (rw i short) (rw i (omega arith)) in
      (t', r ∙ ap (λ l. some ((failure, buf ++ l), t')) i, end, u', omega arith)
  after_read_eof n buf s again ih short h (read_failed eintr, t) (i, u, d) =
      let (t', r, end, u', d') = ih n buf t u (rw i short) (rw i (omega arith)) in
      (t', r ∙ ap (λ l. some ((failure, buf ++ l), t')) i, end, u', omega arith)
  after_read_eof n buf s again ih short h (read_failed ewouldblock, t) no_case = absurd no_case
  after_read_eof n buf s again ih short h (read_failed other_errno, t) no_case = absurd no_case

  read_loop_eof :
      (fuel n : ℕ) (buf : List ℕ) (s : K.State)
      → V.up s fd ≡ true
      → length (V.incoming s fd) < n
      → length (V.incoming s fd) + V.delays s < fuel
      → HasRead V fd s [] (failure, buf ++ V.incoming s fd) (read_loop K fuel fd n buf s)
  unfolding read_loop
  read_loop_eof zero n buf s u short h = absurd (omega arith)
  read_loop_eof (suc fuel) zero buf s u short h = absurd (omega arith)
  read_loop_eof (suc fuel) (suc n) buf s u short h =
      after_read_eof (suc n) buf s _ (read_loop_eof fuel) short h (K.read fd (suc n) s)
        (L.read_law s fd (suc n) u (omega arith))

  -- What had arrived is in the buffer.
  pub do_read_stored_eof :
      (fuel n : ℕ) (s : K.State)
      → V.up s fd ≡ true
      → n < 2 ^ 63
      → length (V.incoming s fd) < n
      → length (V.incoming s fd) + V.delays s < fuel
      → HasRead V fd s [] (failure, V.incoming s fd) (do_read_stored K fuel fd n s)
  unfolding do_read_stored
  do_read_stored_eof fuel n s u fits short h =
      rw (lt→ltb _ _ fits) (read_loop_eof fuel n [] s u short h)

  -- Where a stream that keeps the promises of a stream socket ends before the bytes asked for,
  -- fewer than 2^63, have arrived, `do_read` ends and returns -1, with the stream read to its end;
  -- fuel for each byte, each temporary error and one more call is enough.
  pub do_read_eof :
      (fuel n : ℕ) (s : K.State)
      → V.up s fd ≡ true
      → n < 2 ^ 63
      → length (V.incoming s fd) < n
      → length (V.incoming s fd) + V.delays s < fuel
      → HasRead V fd s [] none (do_read K fuel fd n s)
  unfolding do_read filled
  do_read_eof fuel n s u fits short h =
      let (t, e, left, u', d) = do_read_stored_eof fuel n s u fits short h in
      (t, rw (e, do_read, ◌>>=◌) refl, left, u', d)
