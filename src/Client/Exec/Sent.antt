-- ===== src/Client/Exec/Sent.antt =====
-- What the functions of voyeur-exec.c write.
use libvoyeur.Common.{
  ℕ, ◌+◌, ◌≤◌, ◌≡◌, refl, ◌∙◌, Bool, true, false, ◌&&◌, ◌||◌, not, some, List, [], ◌∷◌, arith,
  append-nil, sym, M, pure, call, length, All, if◌then◌else◌,
}
use libvoyeur.Kernel.{Kernel, View, IsReliable}
use libvoyeur.Net.{Status, success}
use libvoyeur.Net.Stream.{HasSent, Sends, Sends->>=, Sends-pure}
use libvoyeur.Net.Values.{IsCstr?, write_int-Sends, write_pid-Sends, write_string-Sends}
use libvoyeur.Common.Bytes.{IsCstr}
use libvoyeur.Options.{
  has_flag, observe_exec_cwd, observe_exec_env, observe_exec_path, observe_exec_noaccess,
  observe_exec_silent,
}
use libvoyeur.Event.{voyeur_event_exec}
use libvoyeur.Text.{codes}
use libvoyeur.Client.{Process}
use libvoyeur.Client.Sent.{Sends-if, write_event-Sends}
use libvoyeur.Client.Exec.{
  NextExec, exec_guard, write_strings, write_counted, write_exec_body, write_exec_event,
}
use libvoyeur.Client.Calls.{Keeps}
use libvoyeur.Protocol.{bytes_if, message_bytes, strings_bytes, counted_bytes, exec_body}

-- The exec event of a process.
abbrev pub exec_event : Process → ℕ → List ℕ → List (List ℕ) → List (List ℕ) → ℕ → ℕ → List ℕ
exec_event P options path argv envp pid ppid =
    message_bytes voyeur_event_exec
      (exec_body options path argv envp (P.getenv (codes "PATH")) P.getcwd pid ppid)

-- Whether an exec call is reported, given the answer of access(2).
unfoldable pub reports : ℕ → Bool → Bool
reports options accessible =
    not (has_flag options observe_exec_silent)
    && (has_flag options observe_exec_noaccess || accessible)

-- All strings that an exec event can hold are C strings.
pub record AreCstrs (P : Process) (path : List ℕ) (argv envp : List (List ℕ)) : Type 0 where
  pub path_cstr : IsCstr path
  pub argv_cstrs : All IsCstr argv
  pub envp_cstrs : All IsCstr envp
  pub search_cstr : IsCstr? (P.getenv (codes "PATH"))
  pub cwd_cstr : IsCstr? P.getcwd

module _ {K : Kernel} {V : View K} (L : IsReliable V) (fuel sock : ℕ) (P : Process) where
  write_strings-Sends :
      (ss : List (List ℕ))
      → All IsCstr ss
      → Sends V fuel sock (strings_bytes ss) success (write_strings K fuel P sock ss)
  unfolding write_strings strings_bytes
  write_strings-Sends [] h = Sends-pure V fuel sock success
  write_strings-Sends (s ∷ ss) (c, cs) =
      Sends->>= V fuel sock _ _ (write_string-Sends L fuel sock (some s) c)
        (write_strings-Sends ss cs)

  write_counted-Sends :
      (ss : List (List ℕ))
      → All IsCstr ss
      → Sends V fuel sock (counted_bytes ss) success (write_counted K fuel P sock ss)
  unfolding write_counted counted_bytes
  write_counted-Sends ss h =
      Sends->>= V fuel sock _ _ (write_int-Sends L fuel sock (length ss)) (write_strings-Sends ss h)

  write_exec_body-Sends :
      (options : ℕ) (path : List ℕ) (argv envp : List (List ℕ)) (pid ppid : ℕ)
      → AreCstrs P path argv envp
      → Sends V fuel sock
          (exec_body options path argv envp (P.getenv (codes "PATH")) P.getcwd pid ppid)
          success
          (write_exec_body K fuel P sock options path argv envp pid ppid)
  unfolding write_exec_body exec_body
  write_exec_body-Sends options path argv envp pid ppid c =
      Sends->>= V fuel sock _ _ (write_string-Sends L fuel sock (some path) c.path_cstr) (
        Sends->>= V fuel sock _ _ (write_counted-Sends argv c.argv_cstrs) (
          Sends->>= V fuel sock _ _
            (Sends-if (has_flag options observe_exec_env) (write_counted-Sends envp c.envp_cstrs))
            (Sends->>= V fuel sock _ _
              (Sends-if (has_flag options observe_exec_path)
                (write_string-Sends L fuel sock (P.getenv (codes "PATH")) c.search_cstr))
              (Sends->>= V fuel sock _ _
                (Sends-if (has_flag options observe_exec_cwd)
                  (write_string-Sends L fuel sock P.getcwd c.cwd_cstr))
                (Sends->>= V fuel sock _ _ (write_pid-Sends L fuel sock pid)
                  (write_pid-Sends L fuel sock ppid))))))

  checked-HasSent :
      {bytes : List ℕ} {write : M K.State Status} (s : K.State) (answer : Bool × K.State)
      → Sends V fuel sock bytes success write
      → Keeps V sock s answer.1
      → length bytes + V.delays s ≤ fuel
      → HasSent V sock s
          (bytes_if answer.0 bytes)
          success
          ((if answer.0 then write else pure success) answer.1)
  unfolding bytes_if
  checked-HasSent s (true, t) r (kept, u, d) h =
      let (t', e, sent, u', d') = r.run t u (omega arith) in
      (t', e, rw kept at sent, u', omega arith)
  checked-HasSent s (false, t) r (kept, u, d) h =
      (t, refl, kept ∙ sym (append-nil _), u, omega arith)

  exec_guard-HasSent :
      {bytes : List ℕ} {write : M K.State Status} (silent noaccess : Bool)
      (may_access : K.State → Bool × K.State) (s : K.State)
      → Sends V fuel sock bytes success write
      → V.up s sock ≡ true
      → Keeps V sock s (may_access s).1
      → length bytes + V.delays s ≤ fuel
      → HasSent V sock s
          (bytes_if (not silent && (noaccess || (may_access s).0)) bytes)
          success
          (exec_guard silent noaccess (call may_access) write s)
  unfolding exec_guard bytes_if
  exec_guard-HasSent true noaccess may_access s r u kept h =
      (s, refl, sym (append-nil _), u, omega arith)
  exec_guard-HasSent false true may_access s r u kept h = r.run s u h
  exec_guard-HasSent false false may_access s r u kept h = checked-HasSent s (may_access s) r kept h

  -- With a connection, the event is sent exactly if the call is to be reported.
  pub write_exec_event_lem :
      (N : NextExec K) (options : ℕ) (path : List ℕ) (argv envp : List (List ℕ)) (pid ppid : ℕ)
      (s : K.State)
      → AreCstrs P path argv envp
      → V.up s sock ≡ true
      → Keeps V sock s (N.access path s).1
      → length (exec_event P options path argv envp pid ppid) + V.delays s ≤ fuel
      → HasSent V sock s
          (bytes_if
            (reports options (N.access path s).0)
            (exec_event P options path argv envp pid ppid))
          success
          (write_exec_event K fuel P sock N options path argv envp pid ppid s)
  unfolding write_exec_event reports
  write_exec_event_lem N options path argv envp pid ppid s c u kept h =
      exec_guard-HasSent (has_flag options observe_exec_silent)
        (has_flag options observe_exec_noaccess) (N.access path) s
        (write_event-Sends L fuel sock voyeur_event_exec
          (write_exec_body-Sends options path argv envp pid ppid c))
        u kept h
