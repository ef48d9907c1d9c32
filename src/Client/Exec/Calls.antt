-- ===== src/Client/Exec/Calls.antt =====
-- Whole calls of the interposed exec functions.
use libvoyeur.Common.{
  ℕ, ◌+◌, ◌<◌, ◌≡◌, refl, ◌∙◌, Bool, true, none, some, List, ◌∷◌, ◌++◌, arith, append_assoc, M,
  ◌>>=◌, length,
}
use libvoyeur.Kernel.{Kernel, View, IsReliable}
use libvoyeur.Net.{voyeur_msg_done}
use libvoyeur.Net.Values.{int_bytes}
use libvoyeur.Net.Connect.{voyeur_create_client_socket}
use libvoyeur.Options.{voyeur_decode_options}
use libvoyeur.Event.{voyeur_event_exec}
use libvoyeur.Env.{voyeur_augment_environment}
use libvoyeur.Client.{Process, libvoyeur_libs, libvoyeur_opts, libvoyeur_socket}
use libvoyeur.Client.Calls.{Keeps, say_done_lem}
use libvoyeur.Client.Exec.{
  NextExec, augmented, varargs_to_argv, report_exec, exec_through, voyeur_execve, voyeur_execl,
  voyeur_execle, voyeur_execv, voyeur_execlp, voyeur_execvp, voyeur_execvpe,
}
use libvoyeur.Client.Exec.Sent.{exec_event, reports, AreCstrs, write_exec_event_lem}
use libvoyeur.Protocol.{bytes_if}

-- The exec calls that a program can make, with the arguments behind the path; `start` is the argument
-- in front of the variable ones.
pub data ExecCall : Type 0 where
  execve : List (List ℕ) → List (List ℕ) → ExecCall
  execl : List ℕ → List (List ℕ) → ExecCall
  execle : List ℕ → List (List ℕ) → List (List ℕ) → ExecCall
  execv : List (List ℕ) → ExecCall
  execlp : List ℕ → List (List ℕ) → ExecCall
  execvp : List (List ℕ) → ExecCall
  execvpe : List (List ℕ) → List (List ℕ) → ExecCall

module _ (K : Kernel) (fuel : ℕ) (P : Process) (environ : List (List ℕ)) (N : NextExec K) where
  abbrev pub run_exec : List ℕ → ExecCall → M K.State ℕ
  run_exec path (execve argv envp) = voyeur_execve K fuel P environ N path argv envp
  run_exec path (execl start args) = voyeur_execl K fuel P environ N path start args
  run_exec path (execle start args envp) = voyeur_execle K fuel P environ N path start args envp
  run_exec path (execv argv) = voyeur_execv K fuel P environ N path argv
  run_exec path (execlp start args) = voyeur_execlp K fuel P environ N path start args
  run_exec path (execvp argv) = voyeur_execvp K fuel P environ N path argv
  run_exec path (execvpe argv envp) = voyeur_execvpe K fuel P environ N path argv envp

-- The arguments that the new program gets: the variable ones stand behind the path, not behind
-- `start`.
abbrev pub argv_of : List ℕ → ExecCall → List (List ℕ)
argv_of path (execve argv envp) = argv
argv_of path (execl start args) = path ∷ args
argv_of path (execle start args envp) = path ∷ args
argv_of path (execv argv) = argv
argv_of path (execlp start args) = path ∷ args
argv_of path (execvp argv) = argv
argv_of path (execvpe argv envp) = argv

-- The environment before it is augmented.
abbrev pub envp_of : List (List ℕ) → ExecCall → List (List ℕ)
envp_of environ (execve argv envp) = envp
envp_of environ (execl start args) = environ
envp_of environ (execle start args envp) = envp
envp_of environ (execv argv) = environ
envp_of environ (execlp start args) = environ
envp_of environ (execvp argv) = environ
envp_of environ (execvpe argv envp) = envp

-- The real function: the variants that search `PATH` go to `execvpe`.
abbrev pub next_of :
    {K : Kernel}
    → NextExec K
    → ExecCall
    → List ℕ
    → List (List ℕ)
    → List (List ℕ)
    → K.State
    → ℕ × K.State
next_of N (execve argv envp) = N.next_execve
next_of N (execl start args) = N.next_execve
next_of N (execle start args envp) = N.next_execve
next_of N (execv argv) = N.next_execve
next_of N (execlp start args) = N.next_execvpe
next_of N (execvp argv) = N.next_execvpe
next_of N (execvpe argv envp) = N.next_execvpe

-- The options that a process takes from its environment for exec events.
abbrev pub exec_options : Process → ℕ
exec_options P = voyeur_decode_options (P.getenv libvoyeur_opts) voyeur_event_exec

-- All that an exec call sends, given the answer of access(2).
abbrev pub exec_messages : Process → Bool → List ℕ → List (List ℕ) → List (List ℕ) → List ℕ
exec_messages P accessible path argv envp =
    bytes_if (reports (exec_options P) accessible)
      (exec_event P (exec_options P) path argv envp P.getpid P.getppid)
    ++ int_bytes voyeur_msg_done

module _ {K : Kernel} {V : View K} (L : IsReliable V) (fuel sock : ℕ) (P : Process) where
  module _ (environ : List (List ℕ)) (N : NextExec K) where
    report_exec_lem :
        (path : List ℕ) (argv envp : List (List ℕ)) (c : K.State)
        → AreCstrs P path argv envp
        → V.up c sock ≡ true
        → Keeps V sock c (N.access path c).1
        → length (exec_event P (exec_options P) path argv envp P.getpid P.getppid)
            + length (int_bytes voyeur_msg_done)
            + V.delays c
          < fuel
        → (t : K.State) × (V.sent t sock
            ≡ V.sent c sock ++ exec_messages P (N.access path c).0 path argv envp)
          × (report_exec K fuel P environ N path argv envp (some sock) c ≡ some (none, t))
    unfolding report_exec
    report_exec_lem path argv envp c strs u kept h =
        let (t, e, sent, u', d) =
          write_exec_event_lem L fuel sock P N (exec_options P) path argv envp P.getpid P.getppid c
            strs u kept (omega arith) in
        let (t', e', sent') = say_done_lem L fuel sock t u' (omega arith) in
        (t', sent' ∙ rw (sent, append_assoc) refl, rw (e, ◌>>=◌) e')

    exec_through_lem :
        (next : List ℕ → List (List ℕ) → List (List ℕ) → K.State → ℕ × K.State) (path : List ℕ)
        (argv envp : List (List ℕ)) {libs opts sockpath : List ℕ} (s c : K.State)
        → P.getenv libvoyeur_libs ≡ some libs
        → P.getenv libvoyeur_opts ≡ some opts
        → P.getenv libvoyeur_socket ≡ some sockpath
        → voyeur_create_client_socket K (some sockpath) s ≡ some (some sock, c)
        → AreCstrs P path argv envp
        → V.up c sock ≡ true
        → Keeps V sock c (N.access path c).1
        → length (exec_event P (exec_options P) path argv envp P.getpid P.getppid)
            + length (int_bytes voyeur_msg_done)
            + V.delays c
          < fuel
        → (t : K.State) × (V.sent t sock
            ≡ V.sent c sock ++ exec_messages P (N.access path c).0 path argv envp)
          × (exec_through K fuel P environ N next path argv envp s
              ≡ some (next path argv (voyeur_augment_environment envp libs opts sockpath) t))
    unfolding exec_through augmented
    exec_through_lem next path argv envp s c has_libs has_opts has_path connected strs u kept h =
        let (t, sent, e) = report_exec_lem path argv envp c strs u kept h in
        (
          t,
          sent,
          rw (has_path, connected, ◌>>=◌) (rw (e, ◌>>=◌) (rw (has_libs, has_opts, has_path) refl)),
        )

    -- With the three variables set, a connection and C strings, each of the seven exec functions
    -- sends the event if it is to be reported, and then the end message, and calls the real
    -- function of its kind with the path, the arguments and the augmented environment. For `execl`,
    -- `execle` and `execlp` the first argument is the path, whatever `start` was. The check of the
    -- path leaves the connection alone, the stream keeps the promises of a stream socket, and there
    -- is fuel for each byte and each temporary error.
    pub exec_call_lem :
        (path : List ℕ) (made : ExecCall) {libs opts sockpath : List ℕ} (s c : K.State)
        → P.getenv libvoyeur_libs ≡ some libs
        → P.getenv libvoyeur_opts ≡ some opts
        → P.getenv libvoyeur_socket ≡ some sockpath
        → voyeur_create_client_socket K (some sockpath) s ≡ some (some sock, c)
        → AreCstrs P path (argv_of path made) (envp_of environ made)
        → V.up c sock ≡ true
        → Keeps V sock c (N.access path c).1
        → length (
              exec_event P
                (exec_options P)
                path
                (argv_of path made)
                (envp_of environ made)
                P.getpid
                P.getppid)
            + length (int_bytes voyeur_msg_done)
            + V.delays c
          < fuel
        → (t : K.State) × (V.sent t sock
            ≡ V.sent c sock
              ++ exec_messages P
                  (N.access path c).0
                  path
                  (argv_of path made)
                  (envp_of environ made))
          × (run_exec K fuel P environ N path made s
              ≡ some (
                  next_of N made path
                    (argv_of path made)
                    (voyeur_augment_environment (envp_of environ made) libs opts sockpath)
                    t))
    unfolding voyeur_execve voyeur_execl voyeur_execle voyeur_execv voyeur_execlp voyeur_execvp
        voyeur_execvpe varargs_to_argv
    exec_call_lem path (execve argv envp) = exec_through_lem N.next_execve path argv envp
    exec_call_lem path (execl start args) =
        exec_through_lem N.next_execve path (path ∷ args) environ
    exec_call_lem path (execle start args envp) =
        exec_through_lem N.next_execve path (path ∷ args) envp
    exec_call_lem path (execv argv) = exec_through_lem N.next_execve path argv environ
    exec_call_lem path (execlp start args) =
        exec_through_lem N.next_execvpe path (path ∷ args) environ
    exec_call_lem path (execvp argv) = exec_through_lem N.next_execvpe path argv environ
    exec_call_lem path (execvpe argv envp) = exec_through_lem N.next_execvpe path argv envp
