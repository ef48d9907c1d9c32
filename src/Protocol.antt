-- ===== src/Protocol.antt =====
-- The messages of the protocol that net.h describes, as bytes: what a client writes for an event, and
-- what the observer's handlers read.
use libvoyeur.Common.{ℕ, Bool, true, false, Option, none, some, List, [], ◌∷◌, ◌++◌, length}
use libvoyeur.Net.{voyeur_msg_event}
use libvoyeur.Net.Values.{int_bytes, string_bytes, shown}
use libvoyeur.Options.{
  has_flag, observe_exec_cwd, observe_exec_env, observe_exec_path, observe_open_cwd,
}

unfoldable pub bytes_if : Bool → List ℕ → List ℕ
bytes_if true bytes = bytes
bytes_if false bytes = []

unfoldable pub strings_bytes : List (List ℕ) → List ℕ
strings_bytes [] = []
strings_bytes (s ∷ ss) = string_bytes (shown (some s)) ++ strings_bytes ss

-- A list of strings with its length in front.
unfoldable pub counted_bytes : List (List ℕ) → List ℕ
counted_bytes ss = int_bytes (length ss) ++ strings_bytes ss

unfoldable pub message_bytes : ℕ → List ℕ → List ℕ
message_bytes type body = int_bytes voyeur_msg_event ++ (int_bytes type ++ body)

unfoldable pub exec_body :
    ℕ → List ℕ → List (List ℕ) → List (List ℕ) → Option (List ℕ) → Option (List ℕ) → ℕ → ℕ → List ℕ
exec_body opts file argv envp path cwd pid ppid =
    string_bytes (shown (some file))
    ++ (counted_bytes argv
        ++ (bytes_if (has_flag opts observe_exec_env) (counted_bytes envp)
            ++ (bytes_if (has_flag opts observe_exec_path) (string_bytes (shown path))
                ++ (bytes_if (has_flag opts observe_exec_cwd) (string_bytes (shown cwd))
                    ++ (int_bytes pid ++ int_bytes ppid)))))

unfoldable pub exit_body : ℕ → ℕ → ℕ → List ℕ
exit_body status pid ppid = int_bytes status ++ (int_bytes pid ++ int_bytes ppid)

unfoldable pub open_body : ℕ → Option (List ℕ) → ℕ → ℕ → ℕ → Option (List ℕ) → ℕ → List ℕ
open_body opts path oflag mode retval cwd pid =
    string_bytes (shown path)
    ++ (int_bytes oflag
        ++ (int_bytes mode
            ++ (int_bytes retval
                ++ (bytes_if (has_flag opts observe_open_cwd) (string_bytes (shown cwd))
                    ++ int_bytes pid))))

unfoldable pub close_body : ℕ → ℕ → ℕ → List ℕ
close_body fildes retval pid = int_bytes fildes ++ (int_bytes retval ++ int_bytes pid)

-- What an optional argument is after the journey: a null pointer where the option is off.
unfoldable pub seen_if {ℓ} : {A : Type ℓ} → Bool → A → Option A
seen_if true a = some a
seen_if false a = none
