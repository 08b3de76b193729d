-- ===== src/Socket/Listen.antt =====
-- The listening thread of `tcp_server_socket_factory`, and its start and stop.
pub mod Started
pub mod Pending
use nrtb_redo.Common.{
  ℕ, ◌≡◌, refl, sym, ◌∙◌, Bool, true, false, ◌&&◌, ◌||◌, List, [], ◌∷◌, ◌++◌, if◌then◌else◌,
  append_assoc, append-nil, Option, none, some, Bool-cases, inl, inr,
}
use nrtb_redo.Queue.{Queue, Attempt}
use nrtb_redo.Queue
use nrtb_redo.Socket.{Status, sock_connect, sock_undef, sock_init, sock_close}

-- The errors of `accept`: those of a connection only, and the others by their number.
pub data AcceptError : Type 0 where
  eproto ehostdown ehostunreach eagain econnaborted : AcceptError
  other : ℕ → AcceptError

-- What `accept` gives; a connection is named by its descriptor.
pub data Accepted : Type 0 where
  connected : ℕ → Accepted
  refused : AcceptError → Accepted

-- One round: whether another thread shuts `pending` down, as the destructor does first, whether the
-- listening socket is open before `accept` and after it, and what came.
pub record Round : Type 0 where
  pub shuts : Bool
  pub open_before : Bool
  pub open_after : Bool
  pub accepted : Accepted

pub record Listener : Type 0 where
  pub in_run_method : Bool
  pub joinable : Bool
  -- `listen_sock`, by its status.
  pub listen_sock : Option Status
  pub pending : Queue ℕ
  pub last_fault : ℕ

-- How the thread ends: it returns, it is still in the loop, or it ends the whole program.
pub data Ended : Type 0 where
  returned running exits : Listener → Ended

-- The result of `str_to_sockaddr`, `bind` and `listen`; `true` is an error.
pub data Setup : Type 0 where
  bad_address : Setup
  bound : Bool → Bool → Setup

abbrev is_connected : Option Status → Bool
is_connected (some sock_connect) = true
is_connected (some sock_undef) = false
is_connected (some sock_init) = false
is_connected (some sock_close) = false
is_connected none = false

unfoldable pub listening : Listener → Bool
listening l = (l.in_run_method && l.joinable) && is_connected l.listen_sock

-- The fault of an error that ends the thread.
unfoldable pub fatal : AcceptError → Option ℕ
fatal eproto = none
fatal ehostdown = none
fatal ehostunreach = none
fatal eagain = none
fatal econnaborted = none
fatal (other n) = some n

abbrev pub left : Listener → Listener
left l = record l { in_run_method = false }

-- `pending.push` throws on a queue that is shut; the `catch (...)` ends the thread.
abbrev pub stored : Listener → Attempt (Queue ℕ) → (Listener → Ended) → Ended
stored l (Queue.returns q) next = next (record l { pending = q })
stored l Queue.waits next = returned (left l)
stored l Queue.queue_not_ready next = returned (left l)
stored l Queue.undefined next = returned (left l)

unfoldable pub take_in : Accepted → Listener → (Listener → Ended) → Ended
unfolding fatal
take_in (connected sock) l next = stored l (Queue.push sock l.pending) next
take_in (refused e) l next = elim (fatal e) [
  | none ↦ next l
  | some n ↦ returned (left (record l { last_fault = n }))
]

-- What another thread does to the queue before the connection of the round is stored.
unfoldable pub meanwhile : Round → Listener → Listener
meanwhile r l = if r.shuts then record l { pending = Queue.shutdown l.pending } else l

-- The processing loop, with what follows it.
unfoldable pub run_loop : List Round → Listener → Ended
unfolding take_in meanwhile
run_loop [] l = running l
run_loop (r ∷ rounds) l = elim r.open_before [
  | false ↦ returned (left (meanwhile r l))
  | true ↦ elim r.open_after [
    | false ↦ returned (left (record (meanwhile r l) { listen_sock = none; last_fault = 300 }))
    | true ↦ take_in r.accepted (meanwhile r l) (run_loop rounds)
  ]
]

-- Assigned by `=+`, whatever was counted before.
abbrev setup_fault : ℕ
setup_fault = 200

unfoldable pub run : Setup → List Round → Listener → Ended
unfolding run_loop
run bad_address rounds l = exits (record l { in_run_method = true; last_fault = setup_fault })
run (bound a b) rounds l =
    if a || b
    then exits (record l { in_run_method = true; last_fault = setup_fault })
    else run_loop rounds
        (record l { in_run_method = true; last_fault = 0; listen_sock = some sock_connect })

unfoldable pub stop_listen : Listener → Listener
unfolding listening
stop_listen l = record l {
  listen_sock = if listening l then none else l.listen_sock;
  joinable = false;
  pending = Queue.shutdown l.pending;
  last_fault = 0;
}

abbrev pub listener_of : Ended → Listener
listener_of (returned l) = l
listener_of (running l) = l
listener_of (exits l) = l
