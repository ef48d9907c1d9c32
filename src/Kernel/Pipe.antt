-- ===== src/Kernel/Pipe.antt =====
-- The kernel of Kernel/Script with one descriptor, 6, on which send(2) is refused, as it is on a pipe,
-- and with a close(2) that is interrupted too.
use libvoyeur.Common.{
  zero, suc, ◌++◌, ℕ, ◌≡◌, refl, true, false, List, [], ◌∷◌, arith, Bool-cases, inl, inr, ◌==◌,
  if◌then◌else◌,
}
use libvoyeur.Kernel.{
  SendOutcome, sent_count, send_failed, ReadOutcome, received, read_failed, eagain, ewouldblock,
  eintr, other_errno, Kernel, View, CloseOutcome, closed, close_failed, Closed, Took, Gave,
  IsReliable,
}
use libvoyeur.Kernel.Script.{Link, link, link_view, link-IsReliable}

abbrev link_close : ℕ → ℕ → Link → CloseOutcome × Link
link_close zero fd s = (closed, record s { closed_fds = s.closed_fds ++ (fd ∷ []) })
link_close (suc k) fd s = (close_failed eintr, record s { hiccups = k })

abbrev pub pipe_link : Kernel
pipe_link = record link {
  send = λ fd buf s. if fd == 6 then (send_failed other_errno, s) else link.send fd buf s;
  close = λ fd s. link_close s.hiccups fd s;
}

abbrev pub pipe_link_view : View pipe_link
pipe_link_view = record {
  up = λ s fd. if fd == 6 then false else true;
  sent = λ s fd. s.sent;
  incoming = λ s fd. s.incoming;
  delays = λ s. s.hiccups;
}

Took-up :
    (s : Link) (fd : ℕ) (buf : List ℕ) (o : SendOutcome × Link)
    → pipe_link_view.up s fd ≡ true
    → Took link_view s fd buf o
    → Took pipe_link_view s fd buf o
Took-up s fd buf (sent_count n, t) u (pos, le, e, _, d) = (pos, le, e, u, d)
Took-up s fd buf (send_failed eagain, t) u (e, _, d) = (e, u, d)
Took-up s fd buf (send_failed ewouldblock, t) u (e, _, d) = (e, u, d)
Took-up s fd buf (send_failed eintr, t) u (e, _, d) = (e, u, d)
Took-up s fd buf (send_failed other_errno, t) u no_case = absurd no_case

Gave-up :
    (s : Link) (fd n : ℕ) (o : ReadOutcome × Link)
    → pipe_link_view.up s fd ≡ true
    → Gave link_view s fd n o
    → Gave pipe_link_view s fd n o
Gave-up s fd n (received [], t) u (e, e', _, d) = (e, e', u, d)
Gave-up s fd n (received (b ∷ bs), t) u (le, e, _, d) = (le, e, u, d)
Gave-up s fd n (read_failed eagain, t) u (e, _, d) = (e, u, d)
Gave-up s fd n (read_failed eintr, t) u (e, _, d) = (e, u, d)
Gave-up s fd n (read_failed ewouldblock, t) u no_case = absurd no_case
Gave-up s fd n (read_failed other_errno, t) u no_case = absurd no_case

link_close_law :
    (k : ℕ) (s : Link) (fd : ℕ) → s.hiccups ≡ k → Closed pipe_link_view s fd (link_close k fd s)
link_close_law zero s fd e = (refl, omega arith)
link_close_law (suc k) s fd e = (refl, omega arith)

pub pipe_link-IsReliable : IsReliable pipe_link_view
pipe_link-IsReliable = record {
  send_law = λ s fd buf u pos. elim (Bool-cases (fd == 6)) [
    | inl at_pipe ↦ absurd (ground arith)
    | inr other ↦ rw other (Took-up s fd buf _ u (link-IsReliable.send_law s fd buf refl pos))
  ];
  read_law = λ s fd n u pos. Gave-up s fd n _ u (link-IsReliable.read_law s fd n refl pos);
  close_law = λ s fd. link_close_law s.hiccups s fd refl;
}
