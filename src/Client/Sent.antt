-- ===== src/Client/Sent.antt =====
-- What the interposed functions write: the bytes of the protocol.
use libvoyeur.Common.{ℕ, Bool, true, false, Option, List, ◌++◌, M, pure, if◌then◌else◌}
use libvoyeur.Kernel.{Kernel, View, IsReliable}
use libvoyeur.Net.{Status, success, voyeur_msg_event, voyeur_msg_done}
use libvoyeur.Net.Stream.{Sends, Sends->>=, Sends-pure}
use libvoyeur.Net.Values.{
  int_bytes, string_bytes, shown, IsCstr?, write_msg_type-Sends, write_event_type-Sends,
  write_int-Sends, write_pid-Sends, write_string-Sends,
}
use libvoyeur.Options.{has_flag, observe_open_cwd}
use libvoyeur.Event.{voyeur_event_exit, voyeur_event_open, voyeur_event_close}
use libvoyeur.Client.{Process, write_event}
use libvoyeur.Client.Open.{write_open_cwd, write_open_event}
use libvoyeur.Client.Close.{write_close_event}
use libvoyeur.Client.Exit.{write_exit_messages}
use libvoyeur.Protocol.{bytes_if, message_bytes, open_body, close_body}

module _ {K : Kernel} {V : View K} {fuel sock : ℕ} where
  pub Sends-if :
      {bytes : List ℕ} {m : M K.State Status} (b : Bool)
      → Sends V fuel sock bytes success m
      → Sends V fuel sock (bytes_if b bytes) success (if b then m else pure success)
  unfolding bytes_if
  Sends-if true r = r
  Sends-if false r = Sends-pure V fuel sock success

module _ {K : Kernel} {V : View K} (L : IsReliable V) (fuel sock : ℕ) where
  pub write_event-Sends :
      (type : ℕ) {body : List ℕ} {m : M K.State Status}
      → Sends V fuel sock body success m
      → Sends V fuel sock (message_bytes type body) success (write_event K fuel sock type m)
  unfolding message_bytes
  write_event-Sends type r =
      Sends->>= V fuel sock _ _ (write_msg_type-Sends L fuel sock voyeur_msg_event)
        (Sends->>= V fuel sock _ _ (write_event_type-Sends L fuel sock type) r)

  module _ (P : Process) where
    pub write_close_event-Sends :
        (fildes retval : ℕ)
        → Sends V fuel sock
            (message_bytes voyeur_event_close (close_body fildes retval P.getpid))
            success
            (write_close_event K fuel P sock fildes retval)
    unfolding write_close_event close_body
    write_close_event-Sends fildes retval = write_event-Sends voyeur_event_close (
        Sends->>= V fuel sock _ _ (write_int-Sends L fuel sock fildes) (
          Sends->>= V fuel sock _ _ (write_int-Sends L fuel sock retval)
            (write_pid-Sends L fuel sock P.getpid)))

    write_open_cwd-Sends :
        (opts : ℕ)
        → IsCstr? P.getcwd
        → Sends V fuel sock
            (bytes_if (has_flag opts observe_open_cwd) (string_bytes (shown P.getcwd)))
            success
            (write_open_cwd K fuel P sock opts)
    unfolding write_open_cwd
    write_open_cwd-Sends opts c =
        Sends-if (has_flag opts observe_open_cwd) (write_string-Sends L fuel sock P.getcwd c)

    pub write_open_event-Sends :
        (opts : ℕ) (path : Option (List ℕ)) (oflag mode retval : ℕ)
        → IsCstr? path
        → IsCstr? P.getcwd
        → Sends V fuel sock
            (message_bytes voyeur_event_open
              (open_body opts path oflag mode retval P.getcwd P.getpid))
            success
            (write_open_event K fuel P sock opts path oflag mode retval)
    unfolding write_open_event open_body
    write_open_event-Sends opts path oflag mode retval hp hc = write_event-Sends voyeur_event_open (
        Sends->>= V fuel sock _ _ (write_string-Sends L fuel sock path hp) (
          Sends->>= V fuel sock _ _ (write_int-Sends L fuel sock oflag) (
            Sends->>= V fuel sock _ _ (write_int-Sends L fuel sock mode) (
              Sends->>= V fuel sock _ _ (write_int-Sends L fuel sock retval) (
                Sends->>= V fuel sock _ _ (write_open_cwd-Sends opts hc)
                  (write_pid-Sends L fuel sock P.getpid))))))

    pub write_exit_messages-Sends :
        (status : ℕ)
        → Sends V fuel sock
            (message_bytes voyeur_event_exit (
              int_bytes status
              ++ (int_bytes P.getpid ++ (int_bytes P.getppid ++ int_bytes voyeur_msg_done))))
            success
            (write_exit_messages K fuel P sock status)
    unfolding write_exit_messages
    write_exit_messages-Sends status = write_event-Sends voyeur_event_exit (
        Sends->>= V fuel sock _ _ (write_int-Sends L fuel sock status) (
          Sends->>= V fuel sock _ _ (write_pid-Sends L fuel sock P.getpid) (
            Sends->>= V fuel sock _ _ (write_pid-Sends L fuel sock P.getppid)
              (write_msg_type-Sends L fuel sock voyeur_msg_done))))
