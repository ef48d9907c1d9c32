-- ===== src/Event/Cut.antt =====
-- The handlers of event.c where the stream ends in the middle of an event.
use libvoyeur.Common.{
  ℕ, ◌^◌, ◌-◌, ◌<◌, ◌≡◌, refl, Bool, true, false, Option, none, some, List, [], ◌∷◌, ◌++◌, arith, M,
  length, lt→ltb, >>=-some,
}
use libvoyeur.Checked.{◌>>=◌, or_return}
use libvoyeur.Kernel.{Kernel, View, IsReliable}
use libvoyeur.Net.{int_size, voyeur_read_string, voyeur_read_int, voyeur_read_pid}
use libvoyeur.Net.Stream.{Reads}
use libvoyeur.Net.Cut.{Cuts, Cuts->>=, Cuts-nil, read_word-Cuts, read_string-Cuts}
use libvoyeur.Net.Values.{
  int_bytes, string_bytes, shown, IsInt, length-shown, read_int-Reads, read_pid-Reads,
}
use libvoyeur.Options.{
  has_flag, observe_exec_cwd, observe_exec_env, observe_exec_path, observe_open_cwd,
}
use libvoyeur.Event.{Context}
use libvoyeur.Event.Decode.{shown-Reads, read_counted-Reads, read_if-Reads}
use libvoyeur.Event.Handle.{
  read_if, read_strings, read_counted, handle_exec, handle_exit, handle_open, handle_close,
}
use libvoyeur.Protocol.{
  bytes_if, strings_bytes, counted_bytes, exec_body, exit_body, open_body, close_body,
}

module _ {K : Kernel} (V : View K) (fuel fd : ℕ) {A B : Type 0} where
  -- A reader that gives up stops the handler.
  Cuts-then :
      {xs ys : List ℕ} {a : A} (m : M K.State (Option A)) (f : A → M K.State (Option B))
      → Reads V fuel fd xs (some a) m
      → Cuts V fuel fd xs none m
      → Cuts V fuel fd ys none (f a)
      → Cuts V fuel fd (xs ++ ys) none (m >>= f)
  Cuts-then m f p c q = Cuts->>= V fuel fd m (or_return f) p c refl q

  Cuts-then_last :
      {xs : List ℕ} (m : M K.State (Option A)) (f : A → M K.State (Option B))
      → Cuts V fuel fd xs none m
      → Cuts V fuel fd xs none (m >>= f)
  Cuts-then_last m f c = record {
    run = λ s pre post e pos u i h.
        let (t, r, left, u', d) = c.run s pre post e pos u i h in
        (t, >>=-some m (or_return f) s r, left, u', d);
  }

module _ {K : Kernel} {V : View K} (L : IsReliable V) (fuel fd : ℕ) where
  shown-Cuts :
      (o : Option (List ℕ))
      → Cuts V fuel fd (string_bytes (shown o)) none (voyeur_read_string K fuel fd 0)
  shown-Cuts o = read_string-Cuts L fuel fd (shown o) (omega (arith, length-shown o))

  int-Cuts : (v : ℕ) → Cuts V fuel fd (int_bytes v) none (voyeur_read_int K fuel fd)
  unfolding voyeur_read_int
  int-Cuts v = read_word-Cuts L fuel fd int_size v (omega arith)

  pid-Cuts : (v : ℕ) → Cuts V fuel fd (int_bytes v) none (voyeur_read_pid K fuel fd)
  unfolding voyeur_read_pid
  pid-Cuts v = read_word-Cuts L fuel fd int_size v (omega arith)

  read_strings-Cuts :
      (ss : List (List ℕ))
      → Cuts V fuel fd (strings_bytes ss) none (read_strings K fuel fd (length ss))
  unfolding read_strings strings_bytes
  read_strings-Cuts [] = Cuts-nil V fuel fd none _
  read_strings-Cuts (s ∷ ss) =
      Cuts-then V fuel fd _ _ (shown-Reads L fuel fd (some s)) (shown-Cuts (some s))
        (Cuts-then_last V fuel fd _ _ (read_strings-Cuts ss))

  read_counted-Cuts :
      (ss : List (List ℕ))
      → length ss < 2 ^ 31 - 1
      → Cuts V fuel fd (counted_bytes ss) none (read_counted K fuel fd)
  unfolding read_counted counted_bytes
  read_counted-Cuts ss h =
      Cuts-then V fuel fd _ _ (read_int-Reads L fuel fd (length ss) (omega arith))
        (int-Cuts (length ss)) (rw (lt→ltb _ _ h) (read_strings-Cuts ss))

  read_if-Cuts :
      {A : Type 0} {bytes : List ℕ} {m : M K.State (Option A)} (b : Bool)
      → Cuts V fuel fd bytes none m
      → Cuts V fuel fd (bytes_if b bytes) none (read_if b m)
  unfolding read_if bytes_if
  read_if-Cuts true c = Cuts-then_last V fuel fd _ _ c
  read_if-Cuts false c = Cuts-nil V fuel fd none _

  pub handle_close-Cuts :
      (context : Context) (fildes retval pid : ℕ)
      → IsInt fildes
      → IsInt retval
      → Cuts V fuel fd (close_body fildes retval pid) none (handle_close K fuel context fd)
  unfolding handle_close close_body
  handle_close-Cuts context fildes retval pid hf hr =
      Cuts-then V fuel fd _ _ (read_int-Reads L fuel fd fildes hf) (int-Cuts fildes) (
        Cuts-then V fuel fd _ _ (read_int-Reads L fuel fd retval hr) (int-Cuts retval)
          (Cuts-then_last V fuel fd _ _ (pid-Cuts pid)))

  pub handle_exit-Cuts :
      (context : Context) (status pid ppid : ℕ)
      → IsInt status
      → IsInt pid
      → Cuts V fuel fd (exit_body status pid ppid) none (handle_exit K fuel context fd)
  unfolding handle_exit exit_body
  handle_exit-Cuts context status pid ppid hs hp =
      Cuts-then V fuel fd _ _ (read_int-Reads L fuel fd status hs) (int-Cuts status) (
        Cuts-then V fuel fd _ _ (read_pid-Reads L fuel fd pid hp) (pid-Cuts pid)
          (Cuts-then_last V fuel fd _ _ (pid-Cuts ppid)))

  pub handle_open-Cuts :
      (context : Context) (opts : ℕ) (path : Option (List ℕ)) (oflag mode retval : ℕ)
      (cwd : Option (List ℕ)) (pid : ℕ)
      → has_flag context.on_open.opts observe_open_cwd ≡ has_flag opts observe_open_cwd
      → IsInt oflag
      → IsInt mode
      → IsInt retval
      → Cuts V fuel fd
          (open_body opts path oflag mode retval cwd pid)
          none
          (handle_open K fuel context fd)
  unfolding handle_open open_body
  handle_open-Cuts context opts path oflag mode retval cwd pid agree ho hm hr = rw agree (
      Cuts-then V fuel fd _ _ (shown-Reads L fuel fd path) (shown-Cuts path) (
        Cuts-then V fuel fd _ _ (read_int-Reads L fuel fd oflag ho) (int-Cuts oflag) (
          Cuts-then V fuel fd _ _ (read_int-Reads L fuel fd mode hm) (int-Cuts mode) (
            Cuts-then V fuel fd _ _ (read_int-Reads L fuel fd retval hr) (int-Cuts retval) (
              Cuts-then V fuel fd _ _
                (read_if-Reads L fuel fd (has_flag opts observe_open_cwd)
                  (shown-Reads L fuel fd cwd))
                (read_if-Cuts (has_flag opts observe_open_cwd) (shown-Cuts cwd))
                (Cuts-then_last V fuel fd _ _ (pid-Cuts pid)))))))

  pub handle_exec-Cuts :
      (context : Context) (opts : ℕ) (file : List ℕ) (argv envp : List (List ℕ))
      (path cwd : Option (List ℕ)) (pid ppid : ℕ)
      → has_flag context.on_exec.opts observe_exec_env ≡ has_flag opts observe_exec_env
      → has_flag context.on_exec.opts observe_exec_path ≡ has_flag opts observe_exec_path
      → has_flag context.on_exec.opts observe_exec_cwd ≡ has_flag opts observe_exec_cwd
      → length argv < 2 ^ 31 - 1
      → length envp < 2 ^ 31 - 1
      → IsInt pid
      → Cuts V fuel fd
          (exec_body opts file argv envp path cwd pid ppid)
          none
          (handle_exec K fuel context fd)
  unfolding handle_exec exec_body
  handle_exec-Cuts context opts file argv envp path cwd pid ppid env_bit path_bit cwd_bit ha he hp =
      rw (env_bit, path_bit, cwd_bit)
        (Cuts-then V fuel fd _ _ (shown-Reads L fuel fd (some file)) (shown-Cuts (some file)) (
          Cuts-then V fuel fd _ _ (read_counted-Reads L fuel fd argv ha) (read_counted-Cuts argv ha)
            (Cuts-then V fuel fd _ _
              (read_if-Reads L fuel fd (has_flag opts observe_exec_env)
                (read_counted-Reads L fuel fd envp he))
              (read_if-Cuts (has_flag opts observe_exec_env) (read_counted-Cuts envp he))
              (Cuts-then V fuel fd _ _
                (read_if-Reads L fuel fd (has_flag opts observe_exec_path)
                  (shown-Reads L fuel fd path))
                (read_if-Cuts (has_flag opts observe_exec_path) (shown-Cuts path))
                (Cuts-then V fuel fd _ _
                  (read_if-Reads L fuel fd (has_flag opts observe_exec_cwd)
                    (shown-Reads L fuel fd cwd))
                  (read_if-Cuts (has_flag opts observe_exec_cwd) (shown-Cuts cwd))
                  (Cuts-then V fuel fd _ _ (read_pid-Reads L fuel fd pid hp) (pid-Cuts pid)
                    (Cuts-then_last V fuel fd _ _ (pid-Cuts ppid))))))))
