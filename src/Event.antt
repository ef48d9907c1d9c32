-- ===== src/Event.antt =====
-- event.h: the event types and `voyeur_context`, and the registration functions of event.c.
--
-- A function pointer, a `void*` and a descriptor are numbers, and `none` is a null pointer.
pub mod Handle
pub mod Decode
pub mod Message
pub mod Cut
pub mod Any
pub mod Truncated
pub mod Requested
use libvoyeur.Common.{ℕ, Option, none, List}

-- `voyeur_event_type`
abbrev pub voyeur_event_exec : ℕ
voyeur_event_exec = 0

abbrev pub voyeur_event_exit : ℕ
voyeur_event_exit = 1

abbrev pub voyeur_event_open : ℕ
voyeur_event_open = 2

abbrev pub voyeur_event_close : ℕ
voyeur_event_close = 3

abbrev pub voyeur_event_max : ℕ
voyeur_event_max = 4

-- The three fields that `voyeur_context` has for each event.
pub record Observer : Type 0 where
  pub opts : ℕ
  pub cb : Option ℕ
  pub userdata : ℕ

-- voyeur.c: `server_state`. `sun_path` is the address in `sockinfo`, `server_sock` is none where it is
-- negative, and `env_buf` holds the strings that the new environment points to.
pub record ServerState : Type 0 where
  pub sun_path : List ℕ
  pub server_sock : Option ℕ
  pub env_buf : Option (List (List ℕ))

pub record Context : Type 0 where
  pub on_exec : Observer
  pub on_exit : Observer
  pub on_open : Observer
  pub on_close : Observer
  pub resource_path : Option (List ℕ)
  pub server_state : Option ServerState

abbrev no_observer : Observer
no_observer = record { opts = 0; cb = none; userdata = 0 }

-- voyeur.c: a context is zeroed memory.
abbrev pub voyeur_context_create : Context
voyeur_context_create = record {
  on_exec = no_observer;
  on_exit = no_observer;
  on_open = no_observer;
  on_close = no_observer;
  resource_path = none;
  server_state = none;
}

unfoldable pub voyeur_observe_exec : Context → ℕ → Option ℕ → ℕ → Context
voyeur_observe_exec context opts callback userdata = record context {
  on_exec = record { opts = opts; cb = callback; userdata = userdata };
}

unfoldable pub voyeur_observe_exit : Context → ℕ → Option ℕ → ℕ → Context
voyeur_observe_exit context opts callback userdata = record context {
  on_exit = record { opts = opts; cb = callback; userdata = userdata };
}

unfoldable pub voyeur_observe_open : Context → ℕ → Option ℕ → ℕ → Context
voyeur_observe_open context opts callback userdata = record context {
  on_open = record { opts = opts; cb = callback; userdata = userdata };
}

unfoldable pub voyeur_observe_close : Context → ℕ → Option ℕ → ℕ → Context
voyeur_observe_close context opts callback userdata = record context {
  on_close = record { opts = opts; cb = callback; userdata = userdata };
}
