-- ===== src/Sockets.antt =====
-- How the programs set up and close their sockets and rings. What the system answers is an argument
-- of each function; the calls that it makes are a part of its result, those of a connection's own
-- traffic as one `uses`.
pub mod Clients
pub mod Servers
pub mod Orderly
use fast_net.Pool.{remove}
use fast_net.Base.{ℕ, zero, suc, ◌+◌, List, [], ◌∷◌, Option, none, some, ◌==◌, if◌then◌else◌}

-- What socket, accept and the functions named setup_socket return.
pub data Descriptor : Type 0 where
  minus_one : Descriptor
  descriptor : ℕ → Descriptor

-- `spawns` starts a thread that gets the socket and closes it.
pub data Call : Type 0 where
  opens accepts uses closes spawns : Descriptor → Call
  inits_ring exits_ring : Call

-- How a function ends: it returns, it calls exit, it throws, or it is still in its last loop.
pub data End : Type 0 where
  returns exits throws loops : End

-- What a thread holds.
pub record Held : Type 0 where
  pub descriptors : List ℕ
  pub rings : ℕ

abbrev pub nothing_held : Held
nothing_held = record { descriptors = []; rings = 0 }

abbrev gives_up : ℕ → Held → Option Held
gives_up n h = elim (remove n h.descriptors) [
  | none ↦ none
  | some ds ↦ some (record h { descriptors = ds })
]

-- What is held after a call; `none` if it is of a descriptor, or a ring, that is not held.
abbrev pub after_call : Call → Held → Option Held
after_call (opens (descriptor n)) h = some (record h { descriptors = n ∷ h.descriptors })
after_call (accepts (descriptor n)) h = some (record h { descriptors = n ∷ h.descriptors })
after_call (uses (descriptor n)) h = elim (remove n h.descriptors) [
  | none ↦ none
  | some ds ↦ some h
]
after_call (closes (descriptor n)) h = gives_up n h
after_call (spawns (descriptor n)) h = gives_up n h
after_call (opens minus_one) h = some h
after_call (accepts minus_one) h = some h
after_call (uses minus_one) h = none
after_call (closes minus_one) h = none
after_call (spawns minus_one) h = none
after_call inits_ring h = some (record h { rings = h.rings + 1 })
after_call exits_ring h = elim h.rings [ zero ↦ none | suc n ↦ some (record h { rings = n }) ]

abbrev pub after_calls : List Call → Held → Option Held
after_calls [] h = some h
after_calls (c ∷ cs) h = elim (after_call c h) [ none ↦ none | some h' ↦ after_calls cs h' ]
