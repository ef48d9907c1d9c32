-- ===== src/Examples/Streams.antt =====
-- Runs of net.c.
use libvoyeur.Common.{
  ℕ, ◌+◌, ◌≤◌, ◌<◌, ◌≡◌, refl, true, Option, none, some, List, [], ◌∷◌, ◌++◌, arith, length,
}
use libvoyeur.Kernel.Script.{link, link_view, link-IsReliable}
use libvoyeur.Net.{
  Status, success, do_write, do_read, voyeur_write_string, voyeur_read_string, voyeur_write_int,
  voyeur_read_int, write_loop, read_loop, after_send, after_read, retries_send, retries_read,
  string_length, string_payload, then_write, voyeur_write_size, voyeur_read_size, read_word,
  read_payload,
}
use libvoyeur.Net.Stream.{HasSent, HasRead}
use libvoyeur.Net.Write.{do_write_lem}
use libvoyeur.Net.Read.{do_read_lem, do_read_eof}
use libvoyeur.Net.RoundTrip.{read_string-write_string}
use libvoyeur.Examples.Data.{stream, sent_stream}
use libvoyeur.Text.{codes}

do_write_example :
    HasSent link_view 5
      (stream [])
      (codes "hello")
      success
      (do_write link 7 5 (codes "hello") (stream []))
do_write_example = do_write_lem link-IsReliable 5 7 (codes "hello") (stream []) refl (omega arith)

do_read_example :
    HasRead link_view 5
      (stream (codes "hello you"))
      (codes " you")
      (some (codes "hello"))
      (do_read link 7 5 5 (stream (codes "hello you")))
do_read_example =
    do_read_lem link-IsReliable 5 7 (codes "hello") (stream (codes "hello you")) (codes " you")
      (omega arith) refl refl (omega arith)

do_read_eof_example :
    HasRead link_view 5 (stream (codes "he")) [] none (do_read link 7 5 5 (stream (codes "he")))
do_read_eof_example =
    do_read_eof link-IsReliable 5 7 5 (stream (codes "he")) refl (omega arith) (omega arith)
      (omega arith)

abbrev ab_bytes : List ℕ
ab_bytes = 2 ∷ 0 ∷ 0 ∷ 0 ∷ 0 ∷ 0 ∷ 0 ∷ 0 ∷ 97 ∷ 98 ∷ []

string_written :
    voyeur_write_string link 12 7 (some (codes "ab")) 0 (stream [])
    ≡ some (success, sent_stream ab_bytes)
unfolding voyeur_write_string string_length string_payload then_write voyeur_write_size do_write
    write_loop after_send retries_send libvoyeur.Common.Bytes.word_bytes
    libvoyeur.Common.Bytes.strnlen
string_written = refl

read_string-write_string_example :
    HasRead link_view 5
      (stream (ab_bytes ++ (3 ∷ [])))
      (3 ∷ [])
      (some (codes "ab"))
      (voyeur_read_string link 12 5 0 (stream (ab_bytes ++ (3 ∷ []))))
unfolding libvoyeur.Net.Values.string_bytes libvoyeur.Common.Bytes.word_bytes
read_string-write_string_example =
    read_string-write_string link-IsReliable link-IsReliable 12 12 7 5 (some (codes "ab"))
      (stream []) (sent_stream ab_bytes) success (stream (ab_bytes ++ (3 ∷ []))) (3 ∷ [])
      (omega arith) refl (omega arith) string_written refl refl (omega arith)

abbrev int_written : List ℕ
int_written = 4 ∷ 1 ∷ 0 ∷ 0 ∷ []

int_run : voyeur_write_int link 9 7 260 (stream []) ≡ some (success, sent_stream int_written)
unfolding voyeur_write_int do_write write_loop after_send retries_send
    libvoyeur.Common.Bytes.word_bytes
int_run = refl
