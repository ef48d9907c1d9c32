-- ===== src/Server.antt =====
-- voyeur.c: `run_server`, in a build without DEBUG.
pub mod Acts
pub mod Steps
pub mod Refine
pub mod Loop
pub mod Round
pub mod Trace
pub mod Whole
pub mod Setup
pub mod Prepare
pub mod Child
pub mod Start
pub mod Session
use libvoyeur.Common.{
  ℕ, zero, suc, ◌+◌, ◌/◌, ◌%◌, Bool, true, false, Option, none, some, List, [], ◌∷◌, ◌++◌, M, pure,
  call, ◌>>=◌, ltb, ◌>>◌, ◌==◌, if◌then◌else◌,
}
use libvoyeur.Kernel.{Errno, eagain, ewouldblock, eintr, other_errno, Kernel}
use libvoyeur.Net.{Status, success, failure, voyeur_read_int_into}
use libvoyeur.Net.Connect.{voyeur_close_socket}
use libvoyeur.Event.{Context, ServerState}
use libvoyeur.Event.Handle.{Call, handle_message}
use libvoyeur.Event.Requested.{voyeur_requested_libs, voyeur_requested_opts}
use libvoyeur.Env.{
  libs_key, opts_key, socket_key, insert_entry, find_existing, voyeur_entries,
  voyeur_augment_environment,
}

-- `fd_set`
abbrev pub FdSet : Type 0
FdSet = ℕ → Bool

abbrev pub fd_set : ℕ → FdSet → FdSet
fd_set fd set n = if n == fd then true else set n

abbrev pub fd_clr : ℕ → FdSet → FdSet
fd_clr fd set n = if n == fd then false else set n

abbrev pub fd_setsize : ℕ
fd_setsize = 1024

-- What select(2) answers: the descriptors that can be read and those with an error.
pub data SelectOutcome : Type 0 where
  selected : FdSet → FdSet → SelectOutcome
  select_failed : Errno → SelectOutcome

pub record ServerCalls (K : Kernel) : Type 0 where
  pub select : FdSet → K.State → SelectOutcome × K.State
  pub accept : ℕ → K.State → Option ℕ × K.State

-- The local variables of `run_server`, and the calls of the observer's callbacks so far.
pub record Serving : Type 0 where
  pub active : FdSet
  pub child_exited : Bool
  pub child_status : ℕ
  pub calls : List Call

unfoldable pub log_call : Option Call → List Call → List Call
log_call none calls = calls
log_call (some made) calls = calls ++ (made ∷ [])

module _ (K : Kernel) (fuel : ℕ) where
  unfoldable pub drop_fd : ℕ → Serving → M K.State Serving
  drop_fd fd st = do
    _ ← voyeur_close_socket K fuel fd
    pure (record st { active = fd_clr fd st.active })

  abbrev accept_connection : ServerCalls K → ℕ → M K.State (Option ℕ)
  accept_connection C server_sock = call (C.accept server_sock)

  -- `FD_SET` of a descriptor that is no member of an `fd_set` writes outside it.
  unfoldable pub watch : Option ℕ → Serving → M K.State Serving
  watch none st = pure st
  watch (some fd) st =
      if ltb fd fd_setsize then pure (record st { active = fd_set fd st.active }) else λ s. none

  unfoldable pub serve_accept : ServerCalls K → ℕ → Serving → M K.State Serving
  serve_accept C server_sock st = do
    client_sock ← accept_connection C server_sock
    watch client_sock st

  unfoldable pub serve_child : ℕ → Serving → M K.State Serving
  serve_child fd st = do
    status ← voyeur_read_int_into K fuel fd st.child_status
    drop_fd fd (record st { child_exited = true; child_status = status })

  -- What follows `handle_message`.
  unfoldable pub after_message : ℕ → Serving → Status × Option Call → M K.State Serving
  after_message fd st (success, made) = pure (record st { calls = log_call made st.calls })
  after_message fd st (failure, made) = drop_fd fd (record st { calls = log_call made st.calls })

  unfoldable pub serve_client : Context → ℕ → Serving → M K.State Serving
  serve_client context fd st = handle_message K fuel context fd >>= after_message fd st

-- One round of the `for` loop over the descriptors.
unfoldable pub serve_fd :
    (K : Kernel)
    → ℕ
    → ServerCalls K
    → Context
    → ℕ
    → ℕ
    → FdSet
    → FdSet
    → ℕ
    → Serving
    → M K.State Serving
serve_fd K fuel C context server_sock child_pipe_output reads errors fd st =
    if errors fd
    then drop_fd K fuel fd st
    else if reads fd
    then (if fd == server_sock
        then serve_accept K fuel C server_sock st
        else if fd == child_pipe_output
        then serve_child K fuel fd st
        else serve_client K fuel context fd st)
    else pure st

-- The `for` loop from a descriptor on, with so many left.
unfoldable pub for_fds : {S A : Type 0} → (ℕ → A → M S A) → ℕ → ℕ → A → M S A
for_fds body zero fd st = pure st
for_fds body (suc left) fd st = body fd st >>= for_fds body left (suc fd)

unfoldable pub close_straggler : (K : Kernel) → ℕ → FdSet → ℕ → Unit {0} → M K.State (Unit {0})
close_straggler K fuel active fd _ = if active fd then voyeur_close_socket K fuel fd else pure tt

-- `WIFEXITED` and `WEXITSTATUS`; `none` is -1.
unfoldable pub exit_status : ℕ → Option ℕ
exit_status status = if status % 128 == 0 then some (status / 256 % 256) else none

module _ (K : Kernel) (fuel : ℕ) (C : ServerCalls K) (context : Context) where
  module _ (server_sock child_pipe_output : ℕ) where
    -- What follows select(2) in a round of the `while` loop.
    unfoldable pub after_select :
        (Serving → M K.State Serving) → Serving → SelectOutcome → M K.State Serving
    after_select again st (selected reads errors) =
        for_fds (serve_fd K fuel C context server_sock child_pipe_output reads errors) fd_setsize 0
          st
        >>= again
    after_select again st (select_failed eagain) = again st
    after_select again st (select_failed eintr) = again st
    after_select again st (select_failed ewouldblock) = pure st
    after_select again st (select_failed other_errno) = pure st

    -- The `while` loop; `rounds` bounds how often it calls select(2).
    unfoldable pub serve : ℕ → Serving → M K.State Serving
    serve zero st = if st.child_exited then pure st else λ s. none
    serve (suc rounds) st =
        let wait = call (C.select st.active) >>= after_select (serve rounds) st in
        if st.child_exited then pure st else wait

    -- What follows the `while` loop.
    unfoldable pub finish_server : Serving → M K.State (Option ℕ × List Call)
    finish_server st = do
      _ ← voyeur_close_socket K fuel server_sock
      _ ← for_fds (close_straggler K fuel st.active) fd_setsize 0 tt
      pure (exit_status st.child_status, st.calls)

    abbrev pub serving_start : Serving
    serving_start = record {
      active = fd_set child_pipe_output (fd_set server_sock (λ n. false));
      child_exited = false;
      child_status = 0;
      calls = [];
    }

    -- The return value, and the calls of the callbacks. The first descriptors are put into the
    -- `fd_set` like the later ones.
    unfoldable pub run_server : ℕ → M K.State (Option ℕ × List Call)
    run_server rounds =
        if (if ltb server_sock fd_setsize then ltb child_pipe_output fd_setsize else false)
        then serve rounds serving_start >>= finish_server
        else λ s. none
