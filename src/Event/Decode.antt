-- ===== src/Event/Decode.antt =====
-- The handlers of event.c on the bytes of the protocol.
use libvoyeur.Common.{
  ℕ, ◌^◌, ◌-◌, ◌<◌, ◌≡◌, refl, Bool, true, false, Option, none, some, List, [], ◌∷◌, map, arith, M,
  length, lt→ltb,
}
use libvoyeur.Checked.{Reads-then, Reads-then_pure}
use libvoyeur.Kernel.{Kernel, View, IsReliable}
use libvoyeur.Net.{voyeur_read_string}
use libvoyeur.Net.Stream.{Reads, Reads-pure}
use libvoyeur.Net.Values.{
  string_bytes, shown, IsInt, length-shown, read_int-Reads, read_pid-Reads, read_string-Reads,
}
use libvoyeur.Options.{
  has_flag, observe_exec_cwd, observe_exec_env, observe_exec_path, observe_open_cwd,
}
use libvoyeur.Event.{Context}
use libvoyeur.Event.Handle.{
  exec_call, exit_call, open_call, close_call, read_if, read_strings, read_counted, handle_exec,
  handle_exit, handle_open, handle_close,
}
use libvoyeur.Protocol.{
  bytes_if, strings_bytes, counted_bytes, exec_body, exit_body, open_body, close_body, seen_if,
}
use mathlib.Core.Option

module _ {K : Kernel} {V : View K} (L : IsReliable V) (fuel fd : ℕ) where
  pub shown-Reads :
      (o : Option (List ℕ))
      → Reads V fuel fd (string_bytes (shown o)) (some (shown o)) (voyeur_read_string K fuel fd 0)
  shown-Reads o = read_string-Reads L fuel fd (shown o) (omega (arith, length-shown o))

  pub read_strings-Reads :
      (ss : List (List ℕ))
      → Reads V fuel fd
          (strings_bytes ss)
          (some (map (λ s. shown (some s)) ss))
          (read_strings K fuel fd (length ss))
  unfolding read_strings strings_bytes
  read_strings-Reads [] = Reads-pure V fuel fd (some [])
  read_strings-Reads (s ∷ ss) =
      Reads-then V fuel fd _ _ (shown-Reads (some s))
        (Reads-then_pure V fuel fd _ _ _ (read_strings-Reads ss) refl)

  pub read_counted-Reads :
      (ss : List (List ℕ))
      → length ss < 2 ^ 31 - 1
      → Reads V fuel fd
          (counted_bytes ss)
          (some (map (λ s. shown (some s)) ss))
          (read_counted K fuel fd)
  unfolding read_counted counted_bytes
  read_counted-Reads ss h =
      Reads-then V fuel fd _ _ (read_int-Reads L fuel fd (length ss) (omega arith))
        (rw (lt→ltb _ _ h) (read_strings-Reads ss))

  pub read_if-Reads :
      {A : Type 0} {bytes : List ℕ} {a : A} {m : M K.State (Option A)} (b : Bool)
      → Reads V fuel fd bytes (some a) m
      → Reads V fuel fd (bytes_if b bytes) (some (seen_if b a)) (read_if b m)
  unfolding read_if bytes_if seen_if
  read_if-Reads true r = Reads-then_pure V fuel fd _ _ _ r refl
  read_if-Reads false r = Reads-pure V fuel fd (some none)

  pub handle_close-Reads :
      (context : Context) (fildes retval pid : ℕ)
      → IsInt fildes
      → IsInt retval
      → IsInt pid
      → Reads V fuel fd
          (close_body fildes retval pid)
          (Option.map
            (λ cb. close_call cb fildes retval pid context.on_close.userdata)
            context.on_close.cb)
          (handle_close K fuel context fd)
  unfolding handle_close close_body
  handle_close-Reads context fildes retval pid hf hr hp =
      Reads-then V fuel fd _ _ (read_int-Reads L fuel fd fildes hf) (
        Reads-then V fuel fd _ _ (read_int-Reads L fuel fd retval hr)
          (Reads-then_pure V fuel fd _ _ _ (read_pid-Reads L fuel fd pid hp) refl))

  pub handle_exit-Reads :
      (context : Context) (status pid ppid : ℕ)
      → IsInt status
      → IsInt pid
      → IsInt ppid
      → Reads V fuel fd
          (exit_body status pid ppid)
          (Option.map
            (λ cb. exit_call cb status pid ppid context.on_exit.userdata)
            context.on_exit.cb)
          (handle_exit K fuel context fd)
  unfolding handle_exit exit_body
  handle_exit-Reads context status pid ppid hs hp hpp =
      Reads-then V fuel fd _ _ (read_int-Reads L fuel fd status hs) (
        Reads-then V fuel fd _ _ (read_pid-Reads L fuel fd pid hp)
          (Reads-then_pure V fuel fd _ _ _ (read_pid-Reads L fuel fd ppid hpp) refl))

  pub handle_open-Reads :
      (context : Context) (opts : ℕ) (path : Option (List ℕ)) (oflag mode retval : ℕ)
      (cwd : Option (List ℕ)) (pid : ℕ)
      → has_flag context.on_open.opts observe_open_cwd ≡ has_flag opts observe_open_cwd
      → IsInt oflag
      → IsInt mode
      → IsInt retval
      → IsInt pid
      → Reads V fuel fd
          (open_body opts path oflag mode retval cwd pid)
          (Option.map
            (λ cb.
              open_call cb
                (shown path)
                oflag
                mode
                (seen_if (has_flag opts observe_open_cwd) (shown cwd))
                retval
                pid
                context.on_open.userdata)
            context.on_open.cb)
          (handle_open K fuel context fd)
  unfolding handle_open open_body
  handle_open-Reads context opts path oflag mode retval cwd pid agree ho hm hr hp = rw agree (
      Reads-then V fuel fd _ _ (shown-Reads path) (
        Reads-then V fuel fd _ _ (read_int-Reads L fuel fd oflag ho) (
          Reads-then V fuel fd _ _ (read_int-Reads L fuel fd mode hm) (
            Reads-then V fuel fd _ _ (read_int-Reads L fuel fd retval hr) (
              Reads-then V fuel fd _ _
                (read_if-Reads (has_flag opts observe_open_cwd) (shown-Reads cwd))
                (Reads-then_pure V fuel fd _ _ _ (read_pid-Reads L fuel fd pid hp) refl))))))

  pub handle_exec-Reads :
      (context : Context) (opts : ℕ) (file : List ℕ) (argv envp : List (List ℕ))
      (path cwd : Option (List ℕ)) (pid ppid : ℕ)
      → has_flag context.on_exec.opts observe_exec_env ≡ has_flag opts observe_exec_env
      → has_flag context.on_exec.opts observe_exec_path ≡ has_flag opts observe_exec_path
      → has_flag context.on_exec.opts observe_exec_cwd ≡ has_flag opts observe_exec_cwd
      → length argv < 2 ^ 31 - 1
      → length envp < 2 ^ 31 - 1
      → IsInt pid
      → IsInt ppid
      → Reads V fuel fd
          (exec_body opts file argv envp path cwd pid ppid)
          (Option.map
            (λ cb.
              exec_call cb
                (shown (some file))
                (map (λ s. shown (some s)) argv)
                (seen_if (has_flag opts observe_exec_env) (map (λ s. shown (some s)) envp))
                (seen_if (has_flag opts observe_exec_path) (shown path))
                (seen_if (has_flag opts observe_exec_cwd) (shown cwd))
                pid
                ppid
                context.on_exec.userdata)
            context.on_exec.cb)
          (handle_exec K fuel context fd)
  unfolding handle_exec exec_body
  handle_exec-Reads context opts file argv envp path cwd pid ppid env_bit path_bit cwd_bit ha he hp
        hpp =
      rw (env_bit, path_bit, cwd_bit)
        (Reads-then V fuel fd _ _ (shown-Reads (some file)) (
          Reads-then V fuel fd _ _ (read_counted-Reads argv ha) (
            Reads-then V fuel fd _ _
              (read_if-Reads (has_flag opts observe_exec_env) (read_counted-Reads envp he))
              (Reads-then V fuel fd _ _
                (read_if-Reads (has_flag opts observe_exec_path) (shown-Reads path))
                (Reads-then V fuel fd _ _
                  (read_if-Reads (has_flag opts observe_exec_cwd) (shown-Reads cwd))
                  (Reads-then V fuel fd _ _ (read_pid-Reads L fuel fd pid hp)
                    (Reads-then_pure V fuel fd _ _ _ (read_pid-Reads L fuel fd ppid hpp) refl)))))))
