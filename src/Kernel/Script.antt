-- ===== src/Kernel/Script.antt =====
-- A kernel to run the code on: one stream, which moves at most three bytes in a call and interrupts
-- the first calls. It shows that what is assumed of a stream socket can be met.
use libvoyeur.Common.{
  ℕ, zero, suc, ◌≤◌, ◌<◌, ◌≡◌, refl, sym, ap, ◌∙◌, Bool, true, false, some, List, [], ◌∷◌, ◌++◌,
  arith, min, length, take, drop, take-append-drop, length-take,
}
use libvoyeur.Kernel.{
  SendOutcome, sent_count, send_failed, ReadOutcome, received, read_failed, closed, eintr, Kernel,
  View, Took, Gave, IsReliable,
}

pub record Link : Type 0 where
  pub incoming : List ℕ
  pub sent : List ℕ
  pub hiccups : ℕ
  pub refusals : ℕ
  pub closed_fds : List ℕ

abbrev link_send : ℕ → List ℕ → Link → SendOutcome × Link
link_send zero buf s =
    let n : ℕ = min 3 (length buf) in (sent_count n, record s { sent = s.sent ++ take n buf })
link_send (suc k) buf s = (send_failed eintr, record s { hiccups = k })

abbrev link_read : ℕ → ℕ → Link → ReadOutcome × Link
link_read zero n s =
    (received (take (min 3 n) s.incoming), record s { incoming = drop (min 3 n) s.incoming })
link_read (suc k) n s = (read_failed eintr, record s { hiccups = k })

abbrev link_connect : ℕ → Link → Bool × Link
link_connect zero s = (true, s)
link_connect (suc k) s = (false, record s { refusals = k })

abbrev pub link : Kernel
link = record {
  State = Link;
  send = λ fd buf s. link_send s.hiccups buf s;
  read = λ fd n s. link_read s.hiccups n s;
  close = λ fd s. (closed, record s { closed_fds = s.closed_fds ++ (fd ∷ []) });
  socket = λ s. (some 7, s);
  connect = λ fd path s. link_connect s.refusals s;
  usleep = λ n s. s;
  arc4random_uniform = λ n s. (0, s);
}

abbrev pub link_view : View link
link_view = record {
  up = λ s fd. true;
  sent = λ s fd. s.sent;
  incoming = λ s fd. s.incoming;
  delays = λ s. s.hiccups;
}

link_send_law :
    (k : ℕ) (s : Link) (fd : ℕ) (buf : List ℕ)
    → s.hiccups ≡ k
    → 0 < length buf
    → Took link_view s fd buf (link_send k buf s)
link_send_law zero s fd buf e pos = (omega arith, omega arith, refl, refl, omega arith)
link_send_law (suc k) s fd buf e pos = (refl, refl, omega arith)

take-eq-nil : (m : ℕ) (xs : List ℕ) → 0 < m → [] ≡ take m xs → xs ≡ []
take-eq-nil zero xs pos e = absurd (omega arith)
take-eq-nil (suc m) [] pos e = refl
take-eq-nil (suc m) (x ∷ xs) pos e = cc

drop-nil : (m : ℕ) → drop {A = ℕ} m [] ≡ []
drop-nil zero = refl
drop-nil (suc m) = refl

-- The stream is the bytes taken from its front and the others.
link_received :
    (s : Link) (fd n : ℕ) (got : List ℕ)
    → length got ≤ n
    → 0 < n
    → got ≡ take (min 3 n) s.incoming
    → Gave link_view s fd n (received got, record s { incoming = drop (min 3 n) s.incoming })
link_received s fd n [] le pos e =
    let empty : s.incoming ≡ [] = take-eq-nil (min 3 n) s.incoming (omega arith) e in
    (empty, rw empty (drop-nil (min 3 n)), refl, omega arith)
link_received s fd n (b ∷ bs) le pos e = (
  le,
  sym (take-append-drop (min 3 n) s.incoming) ∙ ap (λ l. l ++ drop (min 3 n) s.incoming) (sym e),
  refl,
  omega arith,
)

link_read_law :
    (k : ℕ) (s : Link) (fd n : ℕ) → s.hiccups ≡ k → 0 < n → Gave link_view s fd n (link_read k n s)
link_read_law zero s fd n e pos =
    link_received s fd n _ (omega (arith, length-take (min 3 n) s.incoming)) pos refl
link_read_law (suc k) s fd n e pos = (refl, refl, omega arith)

pub link-IsReliable : IsReliable link_view
link-IsReliable = record {
  send_law = λ s fd buf u pos. link_send_law s.hiccups s fd buf refl pos;
  read_law = λ s fd n u pos. link_read_law s.hiccups s fd n refl pos;
  close_law = λ s fd. (refl, omega arith);
}
