-- ===== src/Event/Message.antt =====
-- `handle_message` of voyeur.c on each message of the protocol.
use libvoyeur.Common.{ℕ, ◌^◌, ◌-◌, ◌<◌, ◌≡◌, Option, none, some, List, map, arith, length}
use libvoyeur.Kernel.{Kernel, View, IsReliable}
use libvoyeur.Net.{success, failure, voyeur_msg_event, voyeur_msg_done}
use libvoyeur.Net.Stream.{Reads, Reads-pure, Reads->>=, Reads->>=_last}
use libvoyeur.Net.Values.{int_bytes, shown, IsInt, read_msg_type-Reads, read_event_type-Reads}
use libvoyeur.Options.{
  has_flag, observe_exec_cwd, observe_exec_env, observe_exec_path, observe_open_cwd,
}
use libvoyeur.Event.{
  Context, voyeur_event_exec, voyeur_event_exit, voyeur_event_open, voyeur_event_close,
}
use libvoyeur.Event.Decode.{
  handle_close-Reads, handle_exit-Reads, handle_open-Reads, handle_exec-Reads,
}
use libvoyeur.Event.Handle.{
  Call, exec_call, exit_call, open_call, close_call, voyeur_handle_event, dispatch, after_msg_type,
  handle_message,
}
use libvoyeur.Protocol.{message_bytes, exec_body, exit_body, open_body, close_body, seen_if}
use mathlib.Core.Option

module _ {K : Kernel} {V : View K} (L : IsReliable V) (fuel fd : ℕ) where
  -- An event message is passed to the handler of its type, and the connection is kept.
  pub message-Reads :
      (context : Context) (type : ℕ) {body : List ℕ} {made : Option Call}
      → IsInt type
      → Reads V fuel fd body made (voyeur_handle_event K fuel context fd type)
      → Reads V fuel fd (message_bytes type body) (success, made) (handle_message K fuel context fd)
  unfolding handle_message after_msg_type dispatch message_bytes
  message-Reads context type h r =
      Reads->>= V fuel fd _ _ (read_msg_type-Reads L fuel fd voyeur_msg_event (omega arith)) (
        Reads->>= V fuel fd _ _ (read_event_type-Reads L fuel fd type h)
          (Reads->>=_last V fuel fd _ _ r (Reads-pure V fuel fd _)))

  pub handle_message_done :
      (context : Context)
      → Reads V fuel fd
          (int_bytes voyeur_msg_done)
          (failure, none)
          (handle_message K fuel context fd)
  unfolding handle_message after_msg_type
  handle_message_done context =
      Reads->>=_last V fuel fd _ _ (read_msg_type-Reads L fuel fd voyeur_msg_done (omega arith))
        (Reads-pure V fuel fd _)

  -- An open event, read by an observer with the same options bit, makes one call of its callback with
  -- the values that were written, and leaves what follows the event.
  pub handle_message_open :
      (context : Context) (opts : ℕ) (path : Option (List ℕ)) (oflag mode retval : ℕ)
      (cwd : Option (List ℕ)) (pid : ℕ)
      → has_flag context.on_open.opts observe_open_cwd ≡ has_flag opts observe_open_cwd
      → IsInt oflag
      → IsInt mode
      → IsInt retval
      → IsInt pid
      → Reads V fuel fd
          (message_bytes voyeur_event_open (open_body opts path oflag mode retval cwd pid))
          (
            success,
            Option.map
                (λ cb.
                  open_call cb
                    (shown path)
                    oflag
                    mode
                    (seen_if (has_flag opts observe_open_cwd) (shown cwd))
                    retval
                    pid
                    context.on_open.userdata)
                context.on_open.cb,
          )
          (handle_message K fuel context fd)
  unfolding voyeur_handle_event
  handle_message_open context opts path oflag mode retval cwd pid agree ho hm hr hp =
      message-Reads context voyeur_event_open (omega arith)
        (handle_open-Reads L fuel fd context opts path oflag mode retval cwd pid agree ho hm hr hp)

  -- The same for a close event.
  pub handle_message_close :
      (context : Context) (fildes retval pid : ℕ)
      → IsInt fildes
      → IsInt retval
      → IsInt pid
      → Reads V fuel fd
          (message_bytes voyeur_event_close (close_body fildes retval pid))
          (
            success,
            Option.map
                (λ cb. close_call cb fildes retval pid context.on_close.userdata)
                context.on_close.cb,
          )
          (handle_message K fuel context fd)
  unfolding voyeur_handle_event
  handle_message_close context fildes retval pid hf hr hp =
      message-Reads context voyeur_event_close (omega arith)
        (handle_close-Reads L fuel fd context fildes retval pid hf hr hp)

  -- The same for an exit event.
  pub handle_message_exit :
      (context : Context) (status pid ppid : ℕ)
      → IsInt status
      → IsInt pid
      → IsInt ppid
      → Reads V fuel fd
          (message_bytes voyeur_event_exit (exit_body status pid ppid))
          (
            success,
            Option.map
                (λ cb. exit_call cb status pid ppid context.on_exit.userdata)
                context.on_exit.cb,
          )
          (handle_message K fuel context fd)
  unfolding voyeur_handle_event
  handle_message_exit context status pid ppid hs hp hpp =
      message-Reads context voyeur_event_exit (omega arith)
        (handle_exit-Reads L fuel fd context status pid ppid hs hp hpp)

  -- The same for an exec event.
  pub handle_message_exec :
      (context : Context) (opts : ℕ) (file : List ℕ) (argv envp : List (List ℕ))
      (path cwd : Option (List ℕ)) (pid ppid : ℕ)
      → has_flag context.on_exec.opts observe_exec_env ≡ has_flag opts observe_exec_env
      → has_flag context.on_exec.opts observe_exec_path ≡ has_flag opts observe_exec_path
      → has_flag context.on_exec.opts observe_exec_cwd ≡ has_flag opts observe_exec_cwd
      → length argv < 2 ^ 31 - 1
      → length envp < 2 ^ 31 - 1
      → IsInt pid
      → IsInt ppid
      → Reads V fuel fd
          (message_bytes voyeur_event_exec (exec_body opts file argv envp path cwd pid ppid))
          (
            success,
            Option.map
                (λ cb.
                  exec_call cb
                    (shown (some file))
                    (map (λ s. shown (some s)) argv)
                    (seen_if (has_flag opts observe_exec_env) (map (λ s. shown (some s)) envp))
                    (seen_if (has_flag opts observe_exec_path) (shown path))
                    (seen_if (has_flag opts observe_exec_cwd) (shown cwd))
                    pid
                    ppid
                    context.on_exec.userdata)
                context.on_exec.cb,
          )
          (handle_message K fuel context fd)
  unfolding voyeur_handle_event
  handle_message_exec context opts file argv envp path cwd pid ppid env_bit path_bit cwd_bit ha he
        hp hpp =
      message-Reads context voyeur_event_exec (omega arith) (
        handle_exec-Reads L fuel fd context opts file argv envp path cwd pid ppid env_bit path_bit
          cwd_bit ha he hp hpp)
