-- ===== src/Socket/Listen/Pending.antt =====
-- What the listening thread makes of the connections that come.
use nrtb_redo.Common.{
  ℕ, ◌≡◌, refl, sym, ◌∙◌, Bool, true, false, ◌&&◌, List, [], ◌∷◌, ◌++◌, if◌then◌else◌, append_assoc,
  append-nil, Bool-cases, inl, inr, All,
}
use nrtb_redo.Queue.{Queue}
use nrtb_redo.Queue
use nrtb_redo.Socket.Listen.{
  AcceptError, eproto, ehostdown, ehostunreach, eagain, econnaborted, other, Accepted, connected,
  refused, Round, Listener, Ended, returned, running, exits, fatal, stored, take_in, meanwhile,
  run_loop, listener_of,
}

-- An error of one connection, after which the thread listens on.
abbrev pub passes : AcceptError → Bool
passes eproto = true
passes ehostdown = true
passes ehostunreach = true
passes eagain = true
passes econnaborted = true
passes (other n) = false

abbrev pub with_first : Accepted → List ℕ → List ℕ
with_first (connected sock) rest = sock ∷ rest
with_first (refused e) rest = if passes e then rest else []

-- The connections of the rounds up to the first that ends the loop.
abbrev pub accepted_of : List Round → List ℕ
accepted_of [] = []
accepted_of (r ∷ rounds) =
    let rest = accepted_of rounds in
    if r.open_before && r.open_after then with_first r.accepted rest else []

-- The flag is down when the thread has returned.
abbrev pub IsLeft : Ended → Type 0
IsLeft (returned l) = l.in_run_method ≡ false
IsLeft (running l) = Unit
IsLeft (exits l) = Unit

-- The connections `socks` came behind those in the queue.
abbrev pub Gained : Listener → List ℕ → Ended → Type 0
Gained l socks e = ((listener_of e).pending.buffer ≡ l.pending.buffer ++ socks) × IsLeft e

-- The queue is empty.
abbrev pub IsBare : Ended → Type 0
IsBare e = ((listener_of e).pending.buffer ≡ []) × IsLeft e

push_ready :
    (sock : ℕ) (q : Queue ℕ)
    → q.ready ≡ true
    → Queue.push sock q ≡ Queue.returns (Queue.store sock (Queue.count_in q))
unfolding Queue.push
push_ready sock q h = rw h

-- What the rest of the loop does.
abbrev Continues : List ℕ → (Listener → Ended) → Type 0
Continues socks next = (l : Listener) → l.pending.ready ≡ true → Gained l socks (next l)

stored-Gained :
    (sock : ℕ) (l : Listener) (socks : List ℕ) (next : Listener → Ended)
    → l.pending.ready ≡ true
    → Continues socks next
    → Gained l (sock ∷ socks) (stored l (Queue.push sock l.pending) next)
unfolding Queue.store Queue.count_in
stored-Gained sock l socks next h later =
    let q = Queue.store sock (Queue.count_in l.pending) in
    let (same, down) = later (record l { pending = q }) h in
    rw (push_ready sock l.pending h) (same ∙ append_assoc l.pending.buffer (sock ∷ []) socks, down)

take_in-Gained :
    (a : Accepted) (l : Listener) (socks : List ℕ) (next : Listener → Ended)
    → l.pending.ready ≡ true
    → Continues socks next
    → Gained l (with_first a socks) (take_in a l next)
unfolding take_in fatal
take_in-Gained (connected sock) l socks next h later = stored-Gained sock l socks next h later
take_in-Gained (refused eproto) l socks next h later = later l h
take_in-Gained (refused ehostdown) l socks next h later = later l h
take_in-Gained (refused ehostunreach) l socks next h later = later l h
take_in-Gained (refused eagain) l socks next h later = later l h
take_in-Gained (refused econnaborted) l socks next h later = later l h
take_in-Gained (refused (other n)) l socks next h later = (sym (append-nil l.pending.buffer), refl)

unshut : (r : Round) (l : Listener) → r.shuts ≡ false → meanwhile r l ≡ l
unfolding meanwhile
unshut r l e = rw e refl

loop-Gained :
    (rounds : List Round) (l : Listener)
    → All (λ r. r.shuts ≡ false) rounds
    → l.pending.ready ≡ true
    → Gained l (accepted_of rounds) (run_loop rounds l)
unfolding run_loop
loop-Gained [] l a h = (sym (append-nil l.pending.buffer), tt)
loop-Gained (r ∷ rounds) l (a, as_) h = elim (Bool-cases r.open_before) [
  | inr b ↦ rw (b, unshut r l a) (sym (append-nil l.pending.buffer), refl)
  | inl b ↦ elim (Bool-cases r.open_after) [
    | inr d ↦ rw (b, d, unshut r l a) (sym (append-nil l.pending.buffer), refl)
    | inl d ↦
        rw (b, d, unshut r l a)
          (take_in-Gained r.accepted l (accepted_of rounds) (run_loop rounds) h
            (λ m k. loop-Gained rounds m as_ k))
  ]
]

-- The queue is shut, and empty.
abbrev IsShut : Listener → Type 0
IsShut l = (l.pending.ready ≡ false) × (l.pending.buffer ≡ [])

after_shutdown-IsShut : (l : Listener) → IsShut (record l { pending = Queue.shutdown l.pending })
unfolding Queue.shutdown
after_shutdown-IsShut l = (refl, Queue.drain-eq-nil l.pending.buffer)

meanwhile-IsShut : (r : Round) (l : Listener) → IsShut l → IsShut (meanwhile r l)
unfolding meanwhile
meanwhile-IsShut r l h = elim (Bool-cases r.shuts) [
  | inl e ↦ rw e (after_shutdown-IsShut l)
  | inr e ↦ rw e h
]

shuts-IsShut : (r : Round) (l : Listener) → r.shuts ≡ true → IsShut (meanwhile r l)
unfolding meanwhile
shuts-IsShut r l e = rw e (after_shutdown-IsShut l)

push_shut : (sock : ℕ) (q : Queue ℕ) → q.ready ≡ false → Queue.push sock q ≡ Queue.queue_not_ready
unfolding Queue.push
push_shut sock q h = rw h refl

take_in-IsBare :
    (a : Accepted) (l : Listener) (next : Listener → Ended)
    → IsShut l
    → IsBare (next l)
    → IsBare (take_in a l next)
unfolding take_in fatal
take_in-IsBare (connected sock) l next (h, e) later = rw (push_shut sock l.pending h) (e, refl)
take_in-IsBare (refused eproto) l next h later = later
take_in-IsBare (refused ehostdown) l next h later = later
take_in-IsBare (refused ehostunreach) l next h later = later
take_in-IsBare (refused eagain) l next h later = later
take_in-IsBare (refused econnaborted) l next h later = later
take_in-IsBare (refused (other n)) l next h later = (h.1, refl)

-- A round on a queue that is shut, before it or in it.
round-IsBare :
    (r : Round) (rounds : List Round) (l : Listener)
    → IsShut (meanwhile r l)
    → IsBare (run_loop rounds (meanwhile r l))
    → IsBare (run_loop (r ∷ rounds) l)
unfolding run_loop
round-IsBare r rounds l h later = elim (Bool-cases r.open_before) [
  | inr b ↦ rw b (h.1, refl)
  | inl b ↦ elim (Bool-cases r.open_after) [
    | inr d ↦ rw (b, d) (h.1, refl)
    | inl d ↦ rw (b, d) (take_in-IsBare r.accepted (meanwhile r l) (run_loop rounds) h later)
  ]
]

loop-IsBare : (rounds : List Round) (l : Listener) → IsShut l → IsBare (run_loop rounds l)
loop-IsBare [] l h = unfold run_loop in (h.1, tt)
loop-IsBare (r ∷ rounds) l h =
    let shut = meanwhile-IsShut r l h in
    round-IsBare r rounds l shut (loop-IsBare rounds (meanwhile r l) shut)

-- From a listener whose queue is open and from which no other thread takes. As long as no thread shuts the
-- queue: the thread puts the connections in it in the order in which they were accepted, up to the first
-- error that is not one of a connection or to the closing of its socket, and none after that. If a thread
-- shuts the queue down in the next round, the queue is empty whatever comes in that round and behind it.
-- Either way `in_run_method` is down whenever the thread has returned.
pub run_loop_lem :
    (rounds late : List Round) (r : Round) (l : Listener)
    → All (λ x. x.shuts ≡ false) rounds
    → l.pending.ready ≡ true
    → r.shuts ≡ true
    → Gained l (accepted_of rounds) (run_loop rounds l) × IsBare (run_loop (r ∷ late) l)
run_loop_lem rounds late r l a h e =
    let shut = shuts-IsShut r l e in
    (loop-Gained rounds l a h, round-IsBare r late l shut (loop-IsBare late (meanwhile r l) shut))
