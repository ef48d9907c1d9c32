-- ===== src/Net/Stream.antt =====
-- What it means that code sends or reads given bytes over a stream, and the rules by which such code
-- is put together. They are about the readers and writers of net.c.
use libvoyeur.Common.{
  ℕ, ◌+◌, ◌≤◌, ◌≡◌, refl, sym, ◌∙◌, true, Option, some, List, [], ◌++◌, arith, append-nil,
  append_assoc, M, pure, ◌>>=◌, length, drop, length-append, drop-append_length,
}
use libvoyeur.Kernel.{Kernel, View}

module _ {K : Kernel} (V : View K) (fd : ℕ) {A : Type 0} where
  -- The run `r` from the state `s` ends with the value `a`, and has handed over exactly `bytes`.
  abbrev pub HasSent : K.State → List ℕ → A → Option (A × K.State) → Type 0
  HasSent s bytes a r =
      (t : K.State) × (r ≡ some (a, t))
      × (V.sent t fd ≡ V.sent s fd ++ bytes)
      × (V.up t fd ≡ true)
      × (V.delays t ≤ V.delays s)

  -- The run `r` ends with the value `a`, and has left exactly `rest` to be read.
  abbrev pub HasRead : K.State → List ℕ → A → Option (A × K.State) → Type 0
  HasRead s rest a r =
      (t : K.State) × (r ≡ some (a, t))
      × (V.incoming t fd ≡ rest)
      × (V.up t fd ≡ true)
      × (V.delays t ≤ V.delays s)

-- The bytes handed over on a socket between two states.
abbrev pub handed_over : {K : Kernel} → View K → ℕ → K.State → K.State → List ℕ
handed_over V sock s t = drop (length (V.sent s sock)) (V.sent t sock)

-- A run has only one result.
pub handed_over_lem :
    {K : Kernel} (V : View K) (sock : ℕ) {A : Type 0} {a b : A} {bytes : List ℕ} {s t : K.State}
    {r : Option (A × K.State)}
    → HasSent V sock s bytes a r
    → r ≡ some (b, t)
    → handed_over V sock s t ≡ bytes
handed_over_lem V sock {bytes = bytes} {s = s} {t = t} (t', e, sent, u, d) e' =
    let same : t ≡ t' = cc in rw (same, sent) (drop-append_length (V.sent s sock) bytes)

module _ {K : Kernel} (V : View K) (fuel fd : ℕ) {A : Type 0} where
  -- With enough fuel `m` hands over exactly `bytes` and returns `a`.
  pub record Sends (bytes : List ℕ) (a : A) (m : M K.State A) : Type 0 where
    pub run :
        (s : K.State)
        → V.up s fd ≡ true
        → length bytes + V.delays s ≤ fuel
        → HasSent V fd s bytes a (m s)

  -- With enough fuel `m` reads `bytes` off the front of the stream, no more, and returns `a`.
  pub record Reads (bytes : List ℕ) (a : A) (m : M K.State A) : Type 0 where
    pub run :
        (s : K.State) (rest : List ℕ)
        → V.up s fd ≡ true
        → V.incoming s fd ≡ bytes ++ rest
        → length bytes + V.delays s ≤ fuel
        → HasRead V fd s rest a (m s)

module _ {K : Kernel} (V : View K) (fuel fd : ℕ) {A B : Type 0} where
  pub Sends->>= :
      {xs ys : List ℕ} {a : A} {b : B} (m : M K.State A) (f : A → M K.State B)
      → Sends V fuel fd xs a m
      → Sends V fuel fd ys b (f a)
      → Sends V fuel fd (xs ++ ys) b (m >>= f)
  Sends->>= {xs} {ys} m f p q = record {
    run = λ s u h.
        let (s', e, sent, u', d) = p.run s u (omega (arith, length-append xs ys)) in
        let (t, e', sent', u'', d') = q.run s' u' (omega (arith, length-append xs ys)) in
        (t, rw (e, ◌>>=◌) e', sent' ∙ rw (sent, append_assoc) refl, u'', omega arith);
  }

  pub Reads->>= :
      {xs ys : List ℕ} {a : A} {b : B} (m : M K.State A) (f : A → M K.State B)
      → Reads V fuel fd xs a m
      → Reads V fuel fd ys b (f a)
      → Reads V fuel fd (xs ++ ys) b (m >>= f)
  Reads->>= {xs} {ys} m f p q = record {
    run = λ s rest u i h.
        let (s', e, left, u', d) =
          p.run s (ys ++ rest) u (i ∙ append_assoc xs ys rest)
            (omega (arith, length-append xs ys)) in
        let (t, e', left', u'', d') = q.run s' rest u' left (omega (arith, length-append xs ys)) in
        (t, rw (e, ◌>>=◌) e', left', u'', omega arith);
  }

module _ {K : Kernel} (V : View K) (fuel fd : ℕ) {A : Type 0} where
  pub Sends-pure : (a : A) → Sends V fuel fd [] a (pure a)
  Sends-pure a = record { run = λ s u h. (s, refl, sym (append-nil _), u, omega arith) }

  pub Reads-pure : (a : A) → Reads V fuel fd [] a (pure a)
  Reads-pure a = record { run = λ s rest u i h. (s, refl, i, u, omega arith) }

module _ {K : Kernel} (V : View K) (fuel fd : ℕ) {A B : Type 0} where
  -- A last step that moves no bytes.
  pub Sends->>=_last :
      {xs : List ℕ} {a : A} {b : B} (m : M K.State A) (f : A → M K.State B)
      → Sends V fuel fd xs a m
      → Sends V fuel fd [] b (f a)
      → Sends V fuel fd xs b (m >>= f)
  Sends->>=_last m f p q = rw append-nil at (Sends->>= V fuel fd m f p q)

  pub Reads->>=_last :
      {xs : List ℕ} {a : A} {b : B} (m : M K.State A) (f : A → M K.State B)
      → Reads V fuel fd xs a m
      → Reads V fuel fd [] b (f a)
      → Reads V fuel fd xs b (m >>= f)
  Reads->>=_last m f p q = rw append-nil at (Reads->>= V fuel fd m f p q)
