-- ===== src/Kernel.antt =====
-- The system calls that net.c makes, as a parameter of every definition that uses them, and what is
-- assumed of a connected stream socket.
pub mod Script
pub mod Pipe
use libvoyeur.Common.{
  ℕ, ◌≤◌, ◌<◌, ◌≡◌, Bool, true, false, Option, List, [], ◌∷◌, ◌++◌, length, take,
}

-- The values of `errno` that the code tests, and all others.
pub data Errno : Type 0 where
  eagain ewouldblock eintr other_errno : Errno

-- A `ssize_t` from `send`: the number of bytes taken, or -1 with `errno`.
pub data SendOutcome : Type 0 where
  sent_count : ℕ → SendOutcome
  send_failed : Errno → SendOutcome

-- A `ssize_t` from `read` with the bytes that it stored. No bytes is the end of the stream.
pub data ReadOutcome : Type 0 where
  received : List ℕ → ReadOutcome
  read_failed : Errno → ReadOutcome

pub data CloseOutcome : Type 0 where
  closed : CloseOutcome
  close_failed : Errno → CloseOutcome

pub record Kernel : Type 1 where
  pub State : Type 0
  pub send : ℕ → List ℕ → State → SendOutcome × State
  pub read : ℕ → ℕ → State → ReadOutcome × State
  pub close : ℕ → State → CloseOutcome × State
  -- A new stream socket; `none` is a negative descriptor.
  pub socket : State → Option ℕ × State
  -- Whether the socket is now connected to the address.
  pub connect : Option ℕ → List ℕ → State → Bool × State
  pub usleep : ℕ → State → State
  -- A number below the bound, which is not 0.
  pub arc4random_uniform : ℕ → State → ℕ × State

-- What can be said of a state: whether a descriptor has a living peer, the bytes handed to that peer
-- so far, the bytes that it has sent and that were not read yet, and how many more calls will fail
-- with a temporary error.
pub record View (K : Kernel) : Type 0 where
  pub up : K.State → ℕ → Bool
  pub sent : K.State → ℕ → List ℕ
  pub incoming : K.State → ℕ → List ℕ
  pub delays : K.State → ℕ

module _ {K : Kernel} (V : View K) where
  -- A call on a stream socket with a peer takes some of the bytes, in order, or fails for now.
  abbrev pub Took : K.State → ℕ → List ℕ → SendOutcome × K.State → Type 0
  Took s fd buf (sent_count n, t) =
      (0 < n)
      × (n ≤ length buf)
      × (V.sent t fd ≡ V.sent s fd ++ take n buf)
      × (V.up t fd ≡ true)
      × (V.delays t ≤ V.delays s)
  Took s fd buf (send_failed eagain, t) =
      (V.sent t fd ≡ V.sent s fd) × (V.up t fd ≡ true) × (V.delays t < V.delays s)
  Took s fd buf (send_failed ewouldblock, t) =
      (V.sent t fd ≡ V.sent s fd) × (V.up t fd ≡ true) × (V.delays t < V.delays s)
  Took s fd buf (send_failed eintr, t) =
      (V.sent t fd ≡ V.sent s fd) × (V.up t fd ≡ true) × (V.delays t < V.delays s)
  Took s fd buf (send_failed other_errno, t) = ⊥

  -- A call gives the next bytes of the stream, at most as many as asked for, or fails for now. It
  -- gives none only at the end of the stream.
  abbrev pub Gave : K.State → ℕ → ℕ → ReadOutcome × K.State → Type 0
  Gave s fd n (received [], t) =
      (V.incoming s fd ≡ [])
      × (V.incoming t fd ≡ [])
      × (V.up t fd ≡ true)
      × (V.delays t ≤ V.delays s)
  Gave s fd n (received (b ∷ bs), t) =
      (length (b ∷ bs) ≤ n)
      × (V.incoming s fd ≡ (b ∷ bs) ++ V.incoming t fd)
      × (V.up t fd ≡ true)
      × (V.delays t ≤ V.delays s)
  Gave s fd n (read_failed eagain, t) =
      (V.incoming t fd ≡ V.incoming s fd) × (V.up t fd ≡ true) × (V.delays t < V.delays s)
  Gave s fd n (read_failed eintr, t) =
      (V.incoming t fd ≡ V.incoming s fd) × (V.up t fd ≡ true) × (V.delays t < V.delays s)
  Gave s fd n (read_failed ewouldblock, t) = ⊥
  Gave s fd n (read_failed other_errno, t) = ⊥

  -- A call of close(2) leaves what was sent, and is interrupted only so often.
  abbrev pub Closed : K.State → ℕ → CloseOutcome × K.State → Type 0
  Closed s fd (closed, t) = (V.sent t fd ≡ V.sent s fd) × (V.delays t ≤ V.delays s)
  Closed s fd (close_failed eintr, t) = (V.sent t fd ≡ V.sent s fd) × (V.delays t < V.delays s)
  Closed s fd (close_failed eagain, t) = (V.sent t fd ≡ V.sent s fd) × (V.delays t ≤ V.delays s)
  Closed s fd (close_failed ewouldblock, t) =
      (V.sent t fd ≡ V.sent s fd) × (V.delays t ≤ V.delays s)
  Closed s fd (close_failed other_errno, t) =
      (V.sent t fd ≡ V.sent s fd) × (V.delays t ≤ V.delays s)

-- What send(2), read(2) and close(2) promise on a stream socket.
pub record IsReliable {K : Kernel} (V : View K) : Type 0 where
  pub send_law :
      (s : K.State) (fd : ℕ) (buf : List ℕ)
      → V.up s fd ≡ true
      → 0 < length buf
      → Took V s fd buf (K.send fd buf s)
  pub read_law : (s : K.State) (fd n : ℕ) → V.up s fd ≡ true → 0 < n → Gave V s fd n (K.read fd n s)
  pub close_law : (s : K.State) (fd : ℕ) → Closed V s fd (K.close fd s)
