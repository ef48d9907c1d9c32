-- ===== src/Net/RoundTrip.antt =====
-- A value that one process writes with net.c and another reads with it.
use libvoyeur.Common.{ℕ, ◌+◌, ◌≤◌, ◌≡◌, true, Option, some, List, ◌++◌, arith, length}
use libvoyeur.Kernel.{Kernel, View, IsReliable}
use libvoyeur.Net.{
  Status, voyeur_write_int, voyeur_read_int, voyeur_write_string, voyeur_read_string,
}
use libvoyeur.Net.Stream.{HasRead, handed_over, handed_over_lem}
use libvoyeur.Net.Values.{
  int_bytes, string_bytes, shown, length-shown, IsInt, IsCstr?, write_int-Sends, write_string-Sends,
  read_int-Reads, read_string-Reads,
}

module _ {K K' : Kernel} {V : View K} {V' : View K'} (L : IsReliable V) (L' : IsReliable V')
    (fuel fuel' sock fd : ℕ) where
  -- Where a process has written a C string or a null pointer on its connection with
  -- `voyeur_write_string`, and another connection brings the bytes that were handed over, then
  -- `voyeur_read_string` gives the first 4096 bytes of the string, or the empty string for the null
  -- pointer, and leaves what follows. Both streams keep the promises of a stream socket, and there
  -- is fuel for each byte and each temporary error.
  pub read_string-write_string :
      (val : Option (List ℕ)) (s t : K.State) (answer : Status) (u : K'.State) (rest : List ℕ)
      → IsCstr? val
      → V.up s sock ≡ true
      → length (string_bytes (shown val)) + V.delays s ≤ fuel
      → voyeur_write_string K fuel sock val 0 s ≡ some (answer, t)
      → V'.up u fd ≡ true
      → V'.incoming u fd ≡ handed_over V sock s t ++ rest
      → length (handed_over V sock s t) + V'.delays u ≤ fuel'
      → HasRead V' fd u rest (some (shown val)) (voyeur_read_string K' fuel' fd 0 u)
  read_string-write_string val s t answer u rest c up_s h e up i h' =
      let over : handed_over V sock s t ≡ string_bytes (shown val) =
        handed_over_lem V sock ((write_string-Sends L fuel sock val c).run s up_s h) e in
      (read_string-Reads L' fuel' fd (shown val) (omega (arith, length-shown val))).run u rest up
        (rw over at i) (rw over at h')

  -- Where a process has written a value of 32 bits with `voyeur_write_int`, and another connection
  -- brings the bytes that were handed over, then `voyeur_read_int` gives the value and leaves what
  -- follows. Both streams keep the promises of a stream socket, and there is fuel for each byte and
  -- each temporary error.
  pub read_int-write_int :
      (v : ℕ) (s t : K.State) (answer : Status) (u : K'.State) (rest : List ℕ)
      → IsInt v
      → V.up s sock ≡ true
      → length (int_bytes v) + V.delays s ≤ fuel
      → voyeur_write_int K fuel sock v s ≡ some (answer, t)
      → V'.up u fd ≡ true
      → V'.incoming u fd ≡ handed_over V sock s t ++ rest
      → length (handed_over V sock s t) + V'.delays u ≤ fuel'
      → HasRead V' fd u rest (some v) (voyeur_read_int K' fuel' fd u)
  read_int-write_int v s t answer u rest small up_s h e up i h' =
      let over : handed_over V sock s t ≡ int_bytes v =
        handed_over_lem V sock ((write_int-Sends L fuel sock v).run s up_s h) e in
      (read_int-Reads L' fuel' fd v small).run u rest up (rw over at i) (rw over at h')
