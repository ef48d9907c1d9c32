-- ===== src/Net.antt =====
-- net.c: the loops over send(2) and read(2), and the readers and writers of each type of value.
--
-- An `int`, a `pid_t` and an enumeration are words of 4 bytes and a `size_t` is one of 8, as on the
-- 64-bit systems that the Makefile builds for; a value is its bit pattern. `fuel` bounds the calls
-- that one loop makes.
pub mod Stream
pub mod Write
pub mod Read
pub mod Values
pub mod RoundTrip
pub mod Cut
pub mod Serve
pub mod Connect
use libvoyeur.Common.{
  ℕ, zero, suc, ◌-◌, ◌^◌, Bool, true, false, Option, none, some, List, [], ◌∷◌, ◌++◌, M, pure, call,
  ◌>>=◌, length, take, drop, ltb, ◌==◌, if◌then◌else◌,
}
use libvoyeur.Common.Bytes.{word_bytes, of_bytes, strnlen}
use libvoyeur.Kernel.{
  Errno, eagain, ewouldblock, eintr, other_errno, SendOutcome, sent_count, send_failed, ReadOutcome,
  received, read_failed, Kernel,
}
use mathlib.Core.Option

-- The return value 0 or -1.
pub data Status : Type 0 where
  success failure : Status

-- The errors after which `do_write` calls send(2) again.
unfoldable pub retries_send : Errno → Bool
retries_send eagain = true
retries_send ewouldblock = true
retries_send eintr = true
retries_send other_errno = false

-- The errors after which `do_read` calls read(2) again.
unfoldable pub retries_read : Errno → Bool
retries_read eagain = true
retries_read eintr = true
retries_read ewouldblock = false
retries_read other_errno = false

abbrev pub int_size : ℕ
int_size = 4

abbrev pub size_t_size : ℕ
size_t_size = 8

abbrev pub voyeur_msg_event : ℕ
voyeur_msg_event = 0

abbrev pub voyeur_msg_done : ℕ
voyeur_msg_done = 1

abbrev pub voyeur_max_strlen : ℕ
voyeur_max_strlen = 4096

module _ {S : Type 0} where
  -- What the loop does with the outcome of send(2), for the bytes not sent before the call.
  unfoldable pub after_send : (List ℕ → M S Status) → List ℕ → SendOutcome → M S Status
  after_send again buf (sent_count n) = again (drop n buf)
  after_send again buf (send_failed e) = if retries_send e then again buf else pure failure

  -- The same for read(2): `left` bytes were asked for, and `buf` holds those read before.
  unfoldable pub after_read :
      (ℕ → List ℕ → M S (Status × List ℕ)) → ℕ → List ℕ → ReadOutcome → M S (Status × List ℕ)
  after_read again left buf (received []) = pure (failure, buf)
  after_read again left buf (received (b ∷ bs)) = again (left - length (b ∷ bs)) (buf ++ (b ∷ bs))
  after_read again left buf (read_failed e) =
      if retries_read e then again left buf else pure (failure, buf)

-- What a caller that gives up where -1 is returned gets from the buffer.
unfoldable pub filled : Status × List ℕ → Option (List ℕ)
filled (success, buf) = some buf
filled (failure, buf) = none

-- What the memory of a value of `size` bytes holds once so many bytes were stored from its start.
unfoldable pub overwritten : ℕ → ℕ → List ℕ → ℕ
overwritten size old buf = of_bytes (buf ++ drop (length buf) (word_bytes size old))

module _ (K : Kernel) where
  unfoldable pub write_loop : ℕ → ℕ → List ℕ → M K.State Status
  write_loop fuel fd [] = pure success
  write_loop zero fd (b ∷ bs) = λ s. none
  write_loop (suc fuel) fd (b ∷ bs) =
      call (K.send fd (b ∷ bs)) >>= after_send (write_loop fuel fd) (b ∷ bs)

  unfoldable pub read_loop : ℕ → ℕ → ℕ → List ℕ → M K.State (Status × List ℕ)
  read_loop fuel fd zero buf = pure (success, buf)
  read_loop zero fd (suc left) buf = λ s. none
  read_loop (suc fuel) fd (suc left) buf =
      call (K.read fd (suc left)) >>= after_read (read_loop fuel fd) (suc left) buf

module _ (K : Kernel) (fuel : ℕ) (fd : ℕ) where
  unfoldable pub do_write : List ℕ → M K.State Status
  do_write buf = write_loop K fuel fd buf

  -- The size is compared as a `ssize_t`: a size with the top bit set is negative, and reads nothing.
  -- The result comes with the bytes stored in the buffer, also where it is -1.
  unfoldable pub do_read_stored : ℕ → M K.State (Status × List ℕ)
  do_read_stored size =
      if ltb size (2 ^ 63) then read_loop K fuel fd size [] else pure (success, [])

  -- The same for the callers that do not look at the buffer where the result is -1, `none`.
  unfoldable pub do_read : ℕ → M K.State (Option (List ℕ))
  do_read size = do got ← do_read_stored size; pure (filled got)

  unfoldable pub read_word : ℕ → M K.State (Option ℕ)
  read_word size = do got ← do_read size; pure (Option.map of_bytes got)

  unfoldable pub voyeur_write_msg_type : ℕ → M K.State Status
  voyeur_write_msg_type val = do_write (word_bytes int_size val)

  unfoldable pub voyeur_read_msg_type : M K.State (Option ℕ)
  voyeur_read_msg_type = read_word int_size

  unfoldable pub voyeur_write_event_type : ℕ → M K.State Status
  voyeur_write_event_type val = do_write (word_bytes int_size val)

  unfoldable pub voyeur_read_event_type : M K.State (Option ℕ)
  voyeur_read_event_type = read_word int_size

  unfoldable pub voyeur_write_byte : ℕ → M K.State Status
  voyeur_write_byte val = do_write (word_bytes 1 val)

  unfoldable pub voyeur_read_byte : M K.State (Option ℕ)
  voyeur_read_byte = read_word 1

  unfoldable pub voyeur_write_int : ℕ → M K.State Status
  voyeur_write_int val = do_write (word_bytes int_size val)

  unfoldable pub voyeur_read_int : M K.State (Option ℕ)
  voyeur_read_int = read_word int_size

  -- What the variable holds after the call, which held `old` before.
  unfoldable pub voyeur_read_int_into : ℕ → M K.State ℕ
  voyeur_read_int_into old = do got ← do_read_stored int_size; pure (overwritten int_size old got.1)

  unfoldable pub voyeur_write_size : ℕ → M K.State Status
  voyeur_write_size val = do_write (word_bytes size_t_size val)

  unfoldable pub voyeur_read_size : M K.State (Option ℕ)
  voyeur_read_size = read_word size_t_size

  unfoldable pub voyeur_write_pid : ℕ → M K.State Status
  voyeur_write_pid val = do_write (word_bytes int_size val)

  unfoldable pub voyeur_read_pid : M K.State (Option ℕ)
  voyeur_read_pid = read_word int_size

-- The length that `voyeur_write_string` sends: `none` is a null pointer.
unfoldable pub string_length : Option (List ℕ) → ℕ → ℕ
string_length none len = 0
string_length (some val) len = if len == 0 then strnlen val voyeur_max_strlen else len

-- The first `len` bytes of the memory at `val`, which holds the string and its NUL.
unfoldable pub string_payload : Option (List ℕ) → ℕ → List ℕ
string_payload none len = []
string_payload (some val) len = take len (val ++ (0 ∷ []))

unfoldable pub then_write : {S : Type 0} → M S Status → Status → M S Status
then_write next failure = pure failure
then_write next success = next

module _ (K : Kernel) (fuel : ℕ) (fd : ℕ) where
  unfoldable pub voyeur_write_string : Option (List ℕ) → ℕ → M K.State Status
  voyeur_write_string val len =
      let n = string_length val len in
      voyeur_write_size K fuel fd n >>= then_write (do_write K fuel fd (string_payload val n))

  -- What follows the length: the test against the caller's buffer, and the bytes. `maxlen` 0 asks for
  -- a new buffer of `len + 1` bytes; there are none of more than 2^63 bytes, and the code then writes
  -- its NUL through a pointer that it does not own. The NUL is not part of the result.
  unfoldable pub read_payload : ℕ → Option ℕ → M K.State (Option (List ℕ))
  read_payload maxlen none = pure none
  read_payload maxlen (some len) =
      if maxlen == 0
      then (if ltb len (2 ^ 63) then do_read K fuel fd len else λ s. none)
      else if ltb len maxlen
      then do_read K fuel fd len
      else pure none

  unfoldable pub voyeur_read_string : ℕ → M K.State (Option (List ℕ))
  voyeur_read_string maxlen = voyeur_read_size K fuel fd >>= read_payload maxlen
