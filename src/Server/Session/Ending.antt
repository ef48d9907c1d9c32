-- ===== src/Server/Session/Ending.antt =====
-- A program that starts another one or ends, and its observer.
use libvoyeur.Common.{
  ℕ, ◌+◌, ◌%◌, ◌^◌, ◌-◌, ◌≤◌, ◌<◌, ◌≡◌, refl, sym, ap, ◌∙◌, Bool, true, false, Option, none, some,
  List, [], ◌∷◌, ◌++◌, map, arith, M, length, length-append, drop, drop-append_length, append_assoc,
  if◌then◌else◌,
}
use libvoyeur.Kernel.{Kernel, View, IsReliable}
use libvoyeur.Net.{Status, success, failure, voyeur_msg_done}
use libvoyeur.Net.Stream.{HasRead, handed_over, handed_over_lem}
use libvoyeur.Net.Values.{int_bytes, shown, IsInt}
use libvoyeur.Options.{
  has_flag, has_flag-mod, observe_exec_cwd, observe_exec_env, observe_exec_path,
}
use libvoyeur.Event.{Context, voyeur_event_exec, voyeur_event_exit}
use libvoyeur.Event.Handle.{Call, exec_call, exit_call, handle_message}
use libvoyeur.Event.Message.{handle_message_exit, handle_message_exec, handle_message_done}
use libvoyeur.Event.Requested.Opts.{HasByteOpts, requested, requested_opts_decode}
use libvoyeur.Client.{Process, libvoyeur_socket}
use libvoyeur.Client.Calls.{Keeps}
use libvoyeur.Client.Exec.{NextExec, write_exec_event}
use libvoyeur.Client.Exec.Sent.{exec_event, reports, AreCstrs, write_exec_event_lem}
use libvoyeur.Protocol.{bytes_if, seen_if, message_bytes, exit_body}
use libvoyeur.Net.Connect.{voyeur_create_client_socket}
use libvoyeur.Client.Exit.{write_exit_event}
use libvoyeur.Client.Ending.{exit_messages, write_exit_event_lem}
use libvoyeur.Text.{codes}
use mathlib.Core.Option

abbrev pub observed_exec :
    Context → Process → List ℕ → List (List ℕ) → List (List ℕ) → ℕ → ℕ → Option Call
observed_exec context P path argv envp pid ppid =
    Option.map
      (λ cb.
        exec_call cb (shown (some path)) (map (λ s. shown (some s)) argv)
          (seen_if (has_flag context.on_exec.opts observe_exec_env)
            (map (λ s. shown (some s)) envp))
          (seen_if (has_flag context.on_exec.opts observe_exec_path)
            (shown (P.getenv (codes "PATH"))))
          (seen_if (has_flag context.on_exec.opts observe_exec_cwd) (shown P.getcwd)) pid ppid
          context.on_exec.userdata)
      context.on_exec.cb

abbrev pub observed_exit : Context → Process → ℕ → Option Call
observed_exit context P status =
    Option.map (λ cb. exit_call cb status P.getpid P.getppid context.on_exit.userdata)
      context.on_exit.cb

-- What a process sends on its way out is the exit event and then the end message.
exit_messages_split :
    (P : Process) (status : ℕ)
    → exit_messages P status
      ≡ message_bytes voyeur_event_exit (exit_body status P.getpid P.getppid)
        ++ int_bytes voyeur_msg_done
unfolding message_bytes exit_body libvoyeur.Common.Bytes.word_bytes
exit_messages_split P status = refl

module _ {K K' : Kernel} {V : View K} {V' : View K'} (L : IsReliable V) (L' : IsReliable V')
    (fuel fuel' sock fd : ℕ) (context : Context) (P : Process) where
  -- For a program with a connection and the options that the observer requested, and an exec call
  -- that is to be reported, with C strings, fewer than 2^31 - 1 arguments and variables, and pids
  -- of 32 bits: the observer that is brought the bytes that `write_exec_event` handed over, and has
  -- a callback for exec events, reads exactly those, leaves what follows, and makes one call of the
  -- callback, with the path, the arguments, and, as far as they were asked for, the environment,
  -- the value of PATH and the working directory, each string up to 4096 bytes, and with the two
  -- pids. The check of the path leaves the connection alone, both streams keep the promises of a
  -- stream socket, and both sides have fuel for each byte and each temporary error.
  pub exec_session :
      (N : NextExec K) (cb : ℕ) (path : List ℕ) (argv envp : List (List ℕ)) (pid ppid : ℕ)
      (s t : K.State) (answer : Status) (u : K'.State) (rest : List ℕ)
      → HasByteOpts context
      → context.on_exec.cb ≡ some cb
      → reports (requested context voyeur_event_exec) (N.access path s).0 ≡ true
      → AreCstrs P path argv envp
      → length argv < 2 ^ 31 - 1
      → length envp < 2 ^ 31 - 1
      → IsInt pid
      → IsInt ppid
      → V.up s sock ≡ true
      → Keeps V sock s (N.access path s).1
      → length (exec_event P (requested context voyeur_event_exec) path argv envp pid ppid)
          + V.delays s
        ≤ fuel
      → write_exec_event K fuel P sock N
          (requested context voyeur_event_exec)
          path
          argv
          envp
          pid
          ppid
          s
        ≡ some (answer, t)
      → V'.up u fd ≡ true
      → V'.incoming u fd ≡ handed_over V sock s t ++ rest
      → length (handed_over V sock s t) + V'.delays u ≤ fuel'
      → HasRead V' fd u rest
          (success, observed_exec context P path argv envp pid ppid)
          (handle_message K' fuel' context fd u)
  unfolding bytes_if
  exec_session N cb path argv envp pid ppid s t answer u rest b has_cb reported strs ha he hpid
        hppid up_s kept h e up i h' =
      let opts : ℕ = requested context voyeur_event_exec in
      let event : List ℕ = exec_event P opts path argv envp pid ppid in
      let over : handed_over V sock s t ≡ event = rw reported at (
        handed_over_lem V sock
          (write_exec_event_lem L fuel sock P N opts path argv envp pid ppid s strs up_s kept h)
          e) in
      let low : opts ≡ context.on_exec.opts % 32 =
        (requested_opts_decode context b).0
        ∙ ap (λ o. (elim o [ some cb ↦ context.on_exec.opts | none ↦ 16 ]) % 32) has_cb in
      let flags = has_flag-mod context.on_exec.opts b.exec_byte in
      let cwd : has_flag opts observe_exec_cwd ≡ has_flag context.on_exec.opts observe_exec_cwd =
        rw low flags.0 in
      let env : has_flag opts observe_exec_env ≡ has_flag context.on_exec.opts observe_exec_env =
        rw low flags.1 in
      let search : has_flag opts observe_exec_path
          ≡ has_flag context.on_exec.opts observe_exec_path =
        rw low flags.2 in
      rw (cwd, env, search) at
        ((handle_message_exec L' fuel' fd context opts path argv envp (P.getenv (codes "PATH"))
            P.getcwd pid ppid (sym env) (sym search) (sym cwd) ha he hpid hppid).run
          u rest up (rw over at i) (rw over at h'))

  -- For a process that exits and gets a connection, with numbers of 32 bits, the observer that is
  -- brought the bytes handed over reads the exit event first, as one call of its callback, if it
  -- has one, with the status and both pids, and then the end message, for which it makes no call
  -- and reports that the connection is over. Nothing of what follows is read. Both streams keep the
  -- promises of a stream socket, with fuel for each byte and each temporary error.
  pub exit_session :
      (status : ℕ) (s c t : K.State) (guard : Bool) (u : K'.State) (rest : List ℕ)
      → IsInt status
      → IsInt P.getpid
      → IsInt P.getppid
      → voyeur_create_client_socket K (P.getenv libvoyeur_socket) s ≡ some (some sock, c)
      → V.up c sock ≡ true
      → length (exit_messages P status) + V.delays c < fuel
      → write_exit_event K fuel P status false s ≡ some (guard, t)
      → V'.up u fd ≡ true
      → V'.incoming u fd ≡ handed_over V sock c t ++ rest
      → length (handed_over V sock c t) + V'.delays u ≤ fuel'
      → (v : K'.State) × (handle_message K' fuel' context fd u
          ≡ some ((success, observed_exit context P status), v))
        × HasRead V' fd v rest (failure, none) (handle_message K' fuel' context fd v)
  exit_session status s c t guard u rest hs hpid hppid connected up_c h e up i h' =
      let (t', e', sent) = write_exit_event_lem L fuel sock P status s c connected up_c h in
      let same : t ≡ t' = cc in
      let body : List ℕ = exit_body status P.getpid P.getppid in
      let over : handed_over V sock c t
          ≡ message_bytes voyeur_event_exit body ++ int_bytes voyeur_msg_done =
        rw (same, sent) (drop-append_length (V.sent c sock) (exit_messages P status))
        ∙ exit_messages_split P status in
      let (v, r, left, up_v, d) =
        (handle_message_exit L' fuel' fd context status P.getpid P.getppid hs hpid hppid).run u
          (int_bytes voyeur_msg_done ++ rest) up
          (i
            ∙ rw over (
                append_assoc (message_bytes voyeur_event_exit body) (int_bytes voyeur_msg_done)
                  rest))
          (omega (
            arith,
            ap length over,
            length-append (message_bytes voyeur_event_exit body) (int_bytes voyeur_msg_done),
          )) in
      (
        v,
        r,
        (handle_message_done L' fuel' fd context).run v rest up_v left (
            omega (
              arith,
              ap length over,
              length-append (message_bytes voyeur_event_exit body) (int_bytes voyeur_msg_done),
            )),
      )
