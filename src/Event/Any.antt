-- ===== src/Event/Any.antt =====
-- `handle_message` of voyeur.c on whole events, events that are cut short, and messages of no known type.
use libvoyeur.Common.{
  ℕ, ◌+◌, ◌^◌, ◌-◌, ◌<◌, ◌≡◌, refl, true, Option, none, some, List, [], map, arith, ◌>>=◌, length,
}
use libvoyeur.Kernel.{Kernel, View, IsReliable}
use libvoyeur.Net.{success, failure, int_size, voyeur_read_msg_type}
use libvoyeur.Net.Stream.{HasRead, Reads}
use libvoyeur.Net.Cut.{Cuts, read_word-eof}
use libvoyeur.Net.Values.{shown, IsInt}
use libvoyeur.Options.{
  has_flag, observe_exec_cwd, observe_exec_env, observe_exec_path, observe_open_cwd,
}
use libvoyeur.Event.{
  Context, voyeur_event_exec, voyeur_event_exit, voyeur_event_open, voyeur_event_close,
}
use libvoyeur.Event.Handle.{
  Call, exec_call, exit_call, open_call, close_call, voyeur_handle_event, after_msg_type,
  handle_message,
}
use libvoyeur.Event.Message.{
  handle_message_exec, handle_message_exit, handle_message_open, handle_message_close,
}
use libvoyeur.Event.Cut.{handle_exec-Cuts, handle_exit-Cuts, handle_open-Cuts, handle_close-Cuts}
use libvoyeur.Protocol.{message_bytes, exec_body, exit_body, open_body, close_body, seen_if}
use mathlib.Core.Option

-- What the clients report, with the arguments that their event carries.
pub data Event : Type 0 where
  exec_event :
      List ℕ → List (List ℕ) → List (List ℕ) → Option (List ℕ) → Option (List ℕ) → ℕ → ℕ → Event
  exit_event : ℕ → ℕ → ℕ → Event
  open_event : Option (List ℕ) → ℕ → ℕ → ℕ → Option (List ℕ) → ℕ → Event
  close_event : ℕ → ℕ → ℕ → Event

-- The numbers fit their types.
abbrev pub IsSound : Event → Type 0
IsSound (exec_event file argv envp path cwd pid ppid) =
    (length argv < 2 ^ 31 - 1) × (length envp < 2 ^ 31 - 1) × IsInt pid × IsInt ppid
IsSound (exit_event status pid ppid) = IsInt status × IsInt pid × IsInt ppid
IsSound (open_event path oflag mode retval cwd pid) =
    IsInt oflag × IsInt mode × IsInt retval × IsInt pid
IsSound (close_event fildes retval pid) = IsInt fildes × IsInt retval × IsInt pid

abbrev pub type_of : Event → ℕ
type_of (exec_event file argv envp path cwd pid ppid) = voyeur_event_exec
type_of (exit_event status pid ppid) = voyeur_event_exit
type_of (open_event path oflag mode retval cwd pid) = voyeur_event_open
type_of (close_event fildes retval pid) = voyeur_event_close

-- The body of an event, with the options that the observer asked for.
abbrev pub body_of : Context → Event → List ℕ
body_of context (exec_event file argv envp path cwd pid ppid) =
    exec_body context.on_exec.opts file argv envp path cwd pid ppid
body_of context (exit_event status pid ppid) = exit_body status pid ppid
body_of context (open_event path oflag mode retval cwd pid) =
    open_body context.on_open.opts path oflag mode retval cwd pid
body_of context (close_event fildes retval pid) = close_body fildes retval pid

abbrev pub event_bytes : Context → Event → List ℕ
event_bytes context ev = message_bytes (type_of ev) (body_of context ev)

-- The call that an observer is owed for an event.
abbrev pub call_of : Context → Event → Option Call
call_of context (exec_event file argv envp path cwd pid ppid) =
    Option.map
      (λ cb.
        exec_call cb (shown (some file)) (map (λ s. shown (some s)) argv)
          (seen_if (has_flag context.on_exec.opts observe_exec_env)
            (map (λ s. shown (some s)) envp))
          (seen_if (has_flag context.on_exec.opts observe_exec_path) (shown path))
          (seen_if (has_flag context.on_exec.opts observe_exec_cwd) (shown cwd)) pid ppid
          context.on_exec.userdata)
      context.on_exec.cb
call_of context (exit_event status pid ppid) =
    Option.map (λ cb. exit_call cb status pid ppid context.on_exit.userdata) context.on_exit.cb
call_of context (open_event path oflag mode retval cwd pid) =
    Option.map
      (λ cb.
        open_call cb (shown path) oflag mode
          (seen_if (has_flag context.on_open.opts observe_open_cwd) (shown cwd)) retval pid
          context.on_open.userdata)
      context.on_open.cb
call_of context (close_event fildes retval pid) =
    Option.map (λ cb. close_call cb fildes retval pid context.on_close.userdata) context.on_close.cb

module _ {K : Kernel} {V : View K} (L : IsReliable V) (fuel fd : ℕ) (context : Context) where
  pub handle_message-Event :
      (ev : Event)
      → IsSound ev
      → Reads V fuel fd
          (event_bytes context ev)
          (success, call_of context ev)
          (handle_message K fuel context fd)
  handle_message-Event (exec_event file argv envp path cwd pid ppid) (ha, he, hp, hpp) =
      handle_message_exec L fuel fd context context.on_exec.opts file argv envp path cwd pid ppid
        refl refl refl ha he hp hpp
  handle_message-Event (exit_event status pid ppid) (hs, hp, hpp) =
      handle_message_exit L fuel fd context status pid ppid hs hp hpp
  handle_message-Event (open_event path oflag mode retval cwd pid) (ho, hm, hr, hp) =
      handle_message_open L fuel fd context context.on_open.opts path oflag mode retval cwd pid refl
        ho hm hr hp
  handle_message-Event (close_event fildes retval pid) (hf, hr, hp) =
      handle_message_close L fuel fd context fildes retval pid hf hr hp

  pub type_of-IsInt : (ev : Event) → IsInt (type_of ev)
  type_of-IsInt (exec_event file argv envp path cwd pid ppid) = omega arith
  type_of-IsInt (exit_event status pid ppid) = omega arith
  type_of-IsInt (open_event path oflag mode retval cwd pid) = omega arith
  type_of-IsInt (close_event fildes retval pid) = omega arith

  -- The handler of an event whose body is cut short.
  pub body-Cuts :
      (ev : Event)
      → IsSound ev
      → Cuts V fuel fd
          (body_of context ev)
          none
          (voyeur_handle_event K fuel context fd (type_of ev))
  unfolding voyeur_handle_event
  body-Cuts (exec_event file argv envp path cwd pid ppid) (ha, he, hp, hpp) =
      handle_exec-Cuts L fuel fd context context.on_exec.opts file argv envp path cwd pid ppid refl
        refl refl ha he hp
  body-Cuts (exit_event status pid ppid) (hs, hp, hpp) =
      handle_exit-Cuts L fuel fd context status pid ppid hs hp
  body-Cuts (open_event path oflag mode retval cwd pid) (ho, hm, hr, hp) =
      handle_open-Cuts L fuel fd context context.on_open.opts path oflag mode retval cwd pid refl ho
        hm hr
  body-Cuts (close_event fildes retval pid) (hf, hr, hp) =
      handle_close-Cuts L fuel fd context fildes retval pid hf hr

  -- Where the stream ends within the type of the message.
  pub message_cut :
      (s : K.State)
      → V.up s fd ≡ true
      → length (V.incoming s fd) < int_size
      → length (V.incoming s fd) + V.delays s < fuel
      → HasRead V fd s [] (failure, none) (handle_message K fuel context fd s)
  unfolding handle_message voyeur_read_msg_type after_msg_type
  message_cut s u short h =
      let (t, e, left, u', d) = read_word-eof L fuel fd int_size s (omega arith) u short h in
      (t, rw (e, ◌>>=◌) refl, left, u', d)
