-- ===== src/Event/Handle.antt =====
-- event.c: the handlers, which read the rest of an event and call the observer, and `handle_message`
-- of voyeur.c, which reads the front of a message.
--
-- A handler answers the call that it makes, or `none` where it makes no call. The memory that it
-- allocates and frees is left out.
use libvoyeur.Common.{
  ℕ, zero, suc, ◌^◌, ◌-◌, Bool, true, false, Option, none, some, List, [], ◌∷◌, M, pure,
  ◌>>=◌ as bind, ltb, ◌==◌, if◌then◌else◌,
}
use libvoyeur.Checked.{◌>>=◌}
use libvoyeur.Kernel.{Kernel}
use libvoyeur.Net.{
  Status, success, failure, voyeur_msg_event, voyeur_msg_done, voyeur_read_msg_type,
  voyeur_read_event_type, voyeur_read_int, voyeur_read_pid, voyeur_read_string,
}
use libvoyeur.Options.{
  has_flag, observe_exec_cwd, observe_exec_env, observe_exec_path, observe_open_cwd,
}
use libvoyeur.Event.{
  Context, voyeur_event_exec, voyeur_event_exit, voyeur_event_open, voyeur_event_close,
}
use mathlib.Core.Option

-- A call of an observer's callback: the function, its arguments, and the user data last.
pub data Call : Type 0 where
  exec_call :
      ℕ
      → List ℕ
      → List (List ℕ)
      → Option (List (List ℕ))
      → Option (List ℕ)
      → Option (List ℕ)
      → ℕ
      → ℕ
      → ℕ
      → Call
  exit_call : ℕ → ℕ → ℕ → ℕ → ℕ → Call
  open_call : ℕ → List ℕ → ℕ → ℕ → Option (List ℕ) → ℕ → ℕ → ℕ → Call
  close_call : ℕ → ℕ → ℕ → ℕ → ℕ → Call

-- A value that is read only if the option asks for it, and is a null pointer otherwise.
unfoldable pub read_if : {S A : Type 0} → Bool → M S (Option A) → M S (Option (Option A))
read_if true m = do a ← m; pure (some (some a))
read_if false m = pure (some none)

module _ (K : Kernel) (fuel : ℕ) (fd : ℕ) where
  unfoldable pub read_strings : ℕ → M K.State (Option (List (List ℕ)))
  read_strings zero = pure (some [])
  read_strings (suc n) = do
    s ← voyeur_read_string K fuel fd 0
    rest ← read_strings n
    pure (some (s ∷ rest))

  -- A negative count makes the code write in front of the array, and the largest one overflows
  -- `argc + 1`.
  unfoldable pub read_counted : M K.State (Option (List (List ℕ)))
  read_counted = do
    n ← voyeur_read_int K fuel fd
    if ltb n (2 ^ 31 - 1) then read_strings n else λ s. none

module _ (K : Kernel) (fuel : ℕ) (context : Context) (fd : ℕ) where
  unfoldable pub handle_exec : M K.State (Option Call)
  handle_exec = do
    file ← voyeur_read_string K fuel fd 0
    argv ← read_counted K fuel fd
    envp ← read_if (has_flag context.on_exec.opts observe_exec_env) (read_counted K fuel fd)
    path ←
        read_if (has_flag context.on_exec.opts observe_exec_path) (voyeur_read_string K fuel fd 0)
    cwd ← read_if (has_flag context.on_exec.opts observe_exec_cwd) (voyeur_read_string K fuel fd 0)
    pid ← voyeur_read_pid K fuel fd
    ppid ← voyeur_read_pid K fuel fd
    pure (
        Option.map (λ cb. exec_call cb file argv envp path cwd pid ppid context.on_exec.userdata)
          context.on_exec.cb)

  unfoldable pub handle_exit : M K.State (Option Call)
  handle_exit = do
    status ← voyeur_read_int K fuel fd
    pid ← voyeur_read_pid K fuel fd
    ppid ← voyeur_read_pid K fuel fd
    pure (
        Option.map (λ cb. exit_call cb status pid ppid context.on_exit.userdata) context.on_exit.cb)

  unfoldable pub handle_open : M K.State (Option Call)
  handle_open = do
    path ← voyeur_read_string K fuel fd 0
    oflag ← voyeur_read_int K fuel fd
    mode ← voyeur_read_int K fuel fd
    retval ← voyeur_read_int K fuel fd
    cwd ← read_if (has_flag context.on_open.opts observe_open_cwd) (voyeur_read_string K fuel fd 0)
    pid ← voyeur_read_pid K fuel fd
    pure (
        Option.map (λ cb. open_call cb path oflag mode cwd retval pid context.on_open.userdata)
          context.on_open.cb)

  unfoldable pub handle_close : M K.State (Option Call)
  handle_close = do
    fildes ← voyeur_read_int K fuel fd
    retval ← voyeur_read_int K fuel fd
    pid ← voyeur_read_pid K fuel fd
    pure (
        Option.map (λ cb. close_call cb fildes retval pid context.on_close.userdata)
          context.on_close.cb)

  -- The `switch`; an unknown type reads nothing.
  unfoldable pub voyeur_handle_event : ℕ → M K.State (Option Call)
  voyeur_handle_event type =
      if type == voyeur_event_exec
      then handle_exec
      else if type == voyeur_event_exit
      then handle_exit
      else if type == voyeur_event_open
      then handle_open
      else if type == voyeur_event_close
      then handle_close
      else pure none

  -- What follows the event type: the handler's own failure is not reported.
  unfoldable pub dispatch : Option ℕ → M K.State (Status × Option Call)
  dispatch none = pure (failure, none)
  dispatch (some type) = bind (voyeur_handle_event type) (λ made. pure (success, made))

  unfoldable pub after_msg_type : Option ℕ → M K.State (Status × Option Call)
  after_msg_type none = pure (failure, none)
  after_msg_type (some msgtype) =
      if msgtype == voyeur_msg_done
      then pure (failure, none)
      else if msgtype == voyeur_msg_event
      then bind (voyeur_read_event_type K fuel fd) dispatch
      else pure (failure, none)

  -- The status is 0 where the connection is kept, and -1 where the caller closes it.
  unfoldable pub handle_message : M K.State (Status × Option Call)
  handle_message = bind (voyeur_read_msg_type K fuel fd) after_msg_type
