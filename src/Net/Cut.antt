-- ===== src/Net/Cut.antt =====
-- A stream that ends in the middle of what is to be read: the readers of net.c on each proper prefix of
-- the bytes of a value.
use libvoyeur.Common.{
  ℕ, ◌+◌, ◌^◌, ◌<◌, ◌≡◌, refl, sym, ap, ◌∙◌, true, none, List, [], ◌∷◌, ◌++◌, arith, M, pure, ◌>>=◌,
  length, length-append, lt→ltb, ◌⊎◌, inl, inr,
}
use libvoyeur.Common.Bytes.{word_bytes, length-word_bytes}
use libvoyeur.Kernel.{Kernel, View, IsReliable}
use libvoyeur.Net.{
  do_read, read_word, size_t_size, read_payload, voyeur_read_size, voyeur_read_string,
}
use libvoyeur.Net.Stream.{HasRead, Reads}
use libvoyeur.Net.Read.{do_read_eof}
use libvoyeur.Net.Values.{string_bytes, read_word-Reads}

-- A prefix of two lists in a row ends in the first, or goes on into the second.
pub prefix_cases :
    (xs ys pre post : List ℕ)
    → xs ++ ys ≡ pre ++ post
    → ((w : List ℕ) × (xs ≡ pre ++ w) × (0 < length w))
      ⊎ ((more : List ℕ) × (pre ≡ xs ++ more) × (ys ≡ more ++ post))
prefix_cases [] ys pre post e = inr (pre, refl, e)
prefix_cases (x ∷ xs) ys [] post e = inl (x ∷ xs, refl, omega arith)
prefix_cases (x ∷ xs) ys (p ∷ pre) post e = elim (prefix_cases xs ys pre post (cc)) [
  | inl (w, e1, pos) ↦ inl (w, cc, pos)
  | inr (more, e1, e2) ↦ inr (more, cc, e2)
]

module _ {K : Kernel} (V : View K) (fuel fd : ℕ) {A : Type 0} where
  -- With enough fuel, where the stream ends after some of the bytes and before the last of them, `m`
  -- reads it to its end and returns `a`.
  pub record Cuts (bytes : List ℕ) (a : A) (m : M K.State A) : Type 0 where
    pub run :
        (s : K.State) (pre post : List ℕ)
        → bytes ≡ pre ++ post
        → 0 < length post
        → V.up s fd ≡ true
        → V.incoming s fd ≡ pre
        → length pre + V.delays s < fuel
        → HasRead V fd s [] a (m s)

module _ {K : Kernel} (V : View K) (fuel fd : ℕ) {A B : Type 0} where
  pub Cuts->>= :
      {xs ys : List ℕ} {a a' : A} {b : B} (m : M K.State A) (f : A → M K.State B)
      → Reads V fuel fd xs a m
      → Cuts V fuel fd xs a' m
      → f a' ≡ pure b
      → Cuts V fuel fd ys b (f a)
      → Cuts V fuel fd (xs ++ ys) b (m >>= f)
  Cuts->>= {xs} {ys} m f p c bad q = record {
    run = λ s pre post e pos u i h. elim (prefix_cases xs ys pre post e) [
      | inl (w, e1, pos1) ↦
          let (t, r, left, u', d) = c.run s pre w e1 pos1 u i h in
          (t, rw (r, ◌>>=◌) (ap (λ k. k t) bad), left, u', d)
      | inr (more, e1, e2) ↦
          let len : length pre ≡ length xs + length more = ap length e1 ∙ length-append xs more in
          let (s', r, left, u', d) = p.run s more u (i ∙ e1) (omega arith) in
          let (t, r', left', u'', d') = q.run s' more post e2 pos u' left (omega arith) in
          (t, rw (r, ◌>>=◌) r', left', u'', omega arith)
    ];
  }

module _ {K : Kernel} (V : View K) (fuel fd : ℕ) {A : Type 0} where
  -- Where nothing is to be read, nothing can be cut.
  pub Cuts-nil : (a : A) (m : M K.State A) → Cuts V fuel fd [] a m
  Cuts-nil a m = record {
    run = λ s pre post e pos u i h. absurd (omega (arith, ap length e, length-append pre post));
  }

module _ {K : Kernel} {V : View K} (L : IsReliable V) (fuel fd : ℕ) where
  -- A word of which bytes are missing.
  pub read_word-eof :
      (n : ℕ) (s : K.State)
      → n < 2 ^ 63
      → V.up s fd ≡ true
      → length (V.incoming s fd) < n
      → length (V.incoming s fd) + V.delays s < fuel
      → HasRead V fd s [] none (read_word K fuel fd n s)
  unfolding read_word
  read_word-eof n s small u short h =
      let (t, e, left, u', d) = do_read_eof L fd fuel n s u small short h in
      (t, rw (e, ◌>>=◌), left, u', d)

  pub do_read-Cuts :
      (bytes : List ℕ)
      → length bytes < 2 ^ 63
      → Cuts V fuel fd bytes none (do_read K fuel fd (length bytes))
  do_read-Cuts bytes small = record {
    run = λ s pre post e pos u i h.
        let len : length bytes ≡ length pre + length post = ap length e ∙ length-append pre post in
        let same : length (V.incoming s fd) ≡ length pre = ap length i in
        do_read_eof L fd fuel (length bytes) s u small (omega arith) (omega arith);
  }

  pub read_word-Cuts :
      (n v : ℕ) → n < 2 ^ 63 → Cuts V fuel fd (word_bytes n v) none (read_word K fuel fd n)
  read_word-Cuts n v small = record {
    run = λ s pre post e pos u i h.
        let len : n ≡ length pre + length post =
          sym (length-word_bytes n v) ∙ ap length e ∙ length-append pre post in
        let same : length (V.incoming s fd) ≡ length pre = ap length i in
        read_word-eof n s small u (omega arith) (omega arith);
  }

  pub read_string-Cuts :
      (s : List ℕ)
      → length s < 2 ^ 63
      → Cuts V fuel fd (string_bytes s) none (voyeur_read_string K fuel fd 0)
  unfolding voyeur_read_string voyeur_read_size string_bytes read_payload
  read_string-Cuts s h =
      Cuts->>= V fuel fd _ _
        (read_word-Reads L fuel fd size_t_size (length s) (omega arith) (omega arith))
        (read_word-Cuts size_t_size (length s) (omega arith)) refl
        (rw (lt→ltb _ _ h) (do_read-Cuts s h))
