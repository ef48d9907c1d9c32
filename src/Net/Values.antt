-- ===== src/Net/Values.antt =====
-- The readers and writers of values in net.c: what each puts on the stream, and that the reader of a
-- type gives back what its writer wrote.
use libvoyeur.Common.{
  ℕ, ◌^◌, ◌≤◌, ◌<◌, ◌≡◌, refl, sym, Option, none, some, List, [], ◌∷◌, ◌++◌, arith, length, take,
  length-take, take-append_min, ap, ◌∙◌, drop, append-nil, drop-append_length, ◌>>=◌, lt→ltb,
}
use libvoyeur.Common.Bytes.{
  of_bytes, word_bytes, length-word_bytes, of_bytes-word_bytes, strnlen-min, IsCstr,
}
use libvoyeur.Kernel.{Kernel, View, IsReliable}
use libvoyeur.Net.{
  success, do_read, do_read_stored, overwritten, voyeur_read_int_into, read_word, int_size,
  size_t_size, voyeur_max_strlen, string_length, string_payload, then_write, read_payload,
  voyeur_write_msg_type, voyeur_read_msg_type, voyeur_write_event_type, voyeur_read_event_type,
  voyeur_write_int, voyeur_read_int, voyeur_write_size, voyeur_read_size, voyeur_write_pid,
  voyeur_read_pid, voyeur_write_string, voyeur_read_string,
}
use libvoyeur.Net.Stream.{Sends, Reads, Sends->>=, Reads->>=, Reads-pure, Reads->>=_last}
use libvoyeur.Net.Write.{do_write-Sends}
use libvoyeur.Net.Read.{do_read-Reads, do_read_stored_lem}

-- The bytes of a value of `int`, `pid_t` or an enumeration, and of a string with its length in front.
abbrev pub int_bytes : ℕ → List ℕ
int_bytes v = word_bytes int_size v

unfoldable pub string_bytes : List ℕ → List ℕ
string_bytes s = word_bytes size_t_size (length s) ++ s

-- What reaches the reader of a string: at most 4096 bytes of it, and nothing of a null pointer.
abbrev pub shown : Option (List ℕ) → List ℕ
shown none = []
shown (some s) = take voyeur_max_strlen s

abbrev pub IsInt : ℕ → Type 0
IsInt v = v < 2 ^ 32

abbrev pub IsCstr? : Option (List ℕ) → Type 0
IsCstr? none = Unit {0}
IsCstr? (some s) = IsCstr s

pub length-shown : (o : Option (List ℕ)) → length (shown o) ≤ voyeur_max_strlen
length-shown none = omega arith
length-shown (some s) = omega (arith, length-take voyeur_max_strlen s)

length_sent : (val : Option (List ℕ)) → IsCstr? val → length (shown val) ≡ string_length val 0
unfolding string_length
length_sent none c = refl
length_sent (some s) c =
    omega (arith, length-take voyeur_max_strlen s, strnlen-min s voyeur_max_strlen c)

payload_sent :
    (val : Option (List ℕ)) → IsCstr? val → shown val ≡ string_payload val (string_length val 0)
unfolding string_length string_payload
payload_sent none c = refl
payload_sent (some s) c =
    sym (take-append_min _ voyeur_max_strlen s (0 ∷ []) (strnlen-min s voyeur_max_strlen c))

module _ {K : Kernel} {V : View K} (L : IsReliable V) (fuel fd : ℕ) where
  pub write_msg_type-Sends :
      (v : ℕ) → Sends V fuel fd (int_bytes v) success (voyeur_write_msg_type K fuel fd v)
  unfolding voyeur_write_msg_type
  write_msg_type-Sends v = do_write-Sends L fd fuel _

  pub write_event_type-Sends :
      (v : ℕ) → Sends V fuel fd (int_bytes v) success (voyeur_write_event_type K fuel fd v)
  unfolding voyeur_write_event_type
  write_event_type-Sends v = do_write-Sends L fd fuel _

  pub write_int-Sends :
      (v : ℕ) → Sends V fuel fd (int_bytes v) success (voyeur_write_int K fuel fd v)
  unfolding voyeur_write_int
  write_int-Sends v = do_write-Sends L fd fuel _

  pub write_pid-Sends :
      (v : ℕ) → Sends V fuel fd (int_bytes v) success (voyeur_write_pid K fuel fd v)
  unfolding voyeur_write_pid
  write_pid-Sends v = do_write-Sends L fd fuel _

  pub read_word-Reads :
      (n v : ℕ)
      → n < 2 ^ 63
      → v < 256 ^ n
      → Reads V fuel fd (word_bytes n v) (some v) (read_word K fuel fd n)
  unfolding read_word
  read_word-Reads n v small fits =
      let stored : Reads V fuel fd (word_bytes n v) (some (word_bytes n v)) (do_read K fuel fd n) =
        rw length-word_bytes at
          (do_read-Reads L fd fuel (word_bytes n v) (rw length-word_bytes small)) in
      Reads->>=_last V fuel fd _ _ stored
        (rw (of_bytes-word_bytes n v fits) (Reads-pure V fuel fd (some v)))

  pub read_msg_type-Reads :
      (v : ℕ) → IsInt v → Reads V fuel fd (int_bytes v) (some v) (voyeur_read_msg_type K fuel fd)
  unfolding voyeur_read_msg_type
  read_msg_type-Reads v h = read_word-Reads int_size v (omega arith) (omega arith)

  pub read_event_type-Reads :
      (v : ℕ) → IsInt v → Reads V fuel fd (int_bytes v) (some v) (voyeur_read_event_type K fuel fd)
  unfolding voyeur_read_event_type
  read_event_type-Reads v h = read_word-Reads int_size v (omega arith) (omega arith)

  pub read_int-Reads :
      (v : ℕ) → IsInt v → Reads V fuel fd (int_bytes v) (some v) (voyeur_read_int K fuel fd)
  unfolding voyeur_read_int
  read_int-Reads v h = read_word-Reads int_size v (omega arith) (omega arith)

  -- Nothing is left of what the variable held before.
  pub read_int_into-Reads :
      (old v : ℕ) → IsInt v → Reads V fuel fd (int_bytes v) v (voyeur_read_int_into K fuel fd old)
  unfolding voyeur_read_int_into overwritten
  read_int_into-Reads old v h = record {
    run = λ s rest u i e.
        let (t, r, left, u', d) =
          do_read_stored_lem L fd fuel (int_bytes v) s rest (rw length-word_bytes (omega arith)) u i
            e in
        let size : length (int_bytes v) ≡ int_size = length-word_bytes int_size v in
        let whole : drop (length (int_bytes v)) (word_bytes int_size old) ≡ [] =
          ap (λ n. drop n (word_bytes int_size old)) (size ∙ sym (length-word_bytes int_size old))
          ∙ ap (λ l. drop (length (word_bytes int_size old)) l)
              (sym (append-nil (word_bytes int_size old)))
          ∙ drop-append_length (word_bytes int_size old) [] in
        let r' : do_read_stored K fuel fd int_size s ≡ some ((success, int_bytes v), t) =
          ap (λ n. do_read_stored K fuel fd n s) (sym size) ∙ r in
        let value : of_bytes (int_bytes v ++ drop (length (int_bytes v)) (word_bytes int_size old))
            ≡ v =
          ap of_bytes (ap (λ l. int_bytes v ++ l) whole ∙ append-nil (int_bytes v))
          ∙ of_bytes-word_bytes int_size v (omega arith) in
        (t, rw (r', ◌>>=◌) (ap (λ n. some (n, t)) value), left, u', d);
  }

  pub read_pid-Reads :
      (v : ℕ) → IsInt v → Reads V fuel fd (int_bytes v) (some v) (voyeur_read_pid K fuel fd)
  unfolding voyeur_read_pid
  read_pid-Reads v h = read_word-Reads int_size v (omega arith) (omega arith)

  -- A C string, or a null pointer, is sent as its length and at most 4096 bytes.
  pub write_string-Sends :
      (val : Option (List ℕ))
      → IsCstr? val
      → Sends V fuel fd (string_bytes (shown val)) success (voyeur_write_string K fuel fd val 0)
  unfolding voyeur_write_string voyeur_write_size string_bytes then_write
  write_string-Sends val c =
      rw (length_sent val c, payload_sent val c)
        (Sends->>= V fuel fd _ _ (do_write-Sends L fd fuel _) (do_write-Sends L fd fuel _))

  pub read_string-Reads :
      (s : List ℕ)
      → length s < 2 ^ 63
      → Reads V fuel fd (string_bytes s) (some s) (voyeur_read_string K fuel fd 0)
  unfolding voyeur_read_string voyeur_read_size string_bytes read_payload
  read_string-Reads s h =
      Reads->>= V fuel fd _ _ (read_word-Reads size_t_size (length s) (omega arith) (omega arith))
        (rw (lt→ltb _ _ h) (do_read-Reads L fd fuel s h))
