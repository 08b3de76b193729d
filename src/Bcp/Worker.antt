-- ===== src/Bcp/Worker.antt =====
-- The thread that reads lines for a control program: what it hands on, and how it ends.
use nrtb_redo.Common.{
  ℕ, ◌≡◌, ◌≢◌, refl, sym, ap, ◌∙◌, true, false, List, [], ◌∷◌, ◌++◌, append_assoc, append-nil, ◌==◌,
  arith,
}
use nrtb_redo.Common.Bytes.{Bytes, codes, Lacks}
use nrtb_redo.Common.Outcome
use nrtb_redo.Queue.{Queue, Attempt}
use nrtb_redo.Queue
use nrtb_redo.Socket
use nrtb_redo.Socket.{SocketError, timeout_exception}
use nrtb_redo.Text.Gsub.{gsub, gsub_byte, expand, expand-append, swap_byte}
use nrtb_redo.Bcp.{
  ComHandler, Round, Thread, handler, done, pushed, stripped, take_line, read_loop, worker, get,
}

-- What `getln` gives in a round: a line up to its carriage return, a timeout, or another exception.
pub data Event : Type 0 where
  line : Bytes → Event
  late : Bytes → Event
  broken : (e : SocketError) → e ≢ timeout_exception → Bytes → Event

abbrev pub round_of : Event → Round
round_of (line s) = record { active = true; line = Socket.returns (s ++ codes "\r") }
round_of (late s) = record { active = true; line = Socket.throws timeout_exception s }
round_of (broken e h s) = record { active = true; line = Socket.throws e s }

abbrev pub rounds_of : List Event → List Round
rounds_of [] = []
rounds_of (e ∷ es) = round_of e ∷ rounds_of es

-- The lines up to the first exception that is no timeout.
abbrev pub lines_of : List Event → List Bytes
lines_of [] = []
lines_of (line s ∷ es) = s ∷ lines_of es
lines_of (late s ∷ es) = lines_of es
lines_of (broken e h s ∷ es) = []

abbrev pub AllLines : List Event → Type 0
AllLines [] = Unit
AllLines (line s ∷ es) = Lacks b'\r' s × AllLines es
AllLines (late s ∷ es) = AllLines es
AllLines (broken e h s ∷ es) = Unit

-- The queue got these lines, and is as open as it was.
pub record HasGained (h : ComHandler) (texts : List Bytes) (out : Thread) : Type 0 where
  pub gained : (handler out).inbound.buffer ≡ h.inbound.buffer ++ texts
  pub open_queue : (handler out).inbound.ready ≡ true
  pub free : (handler out).inbound.blocked ≡ h.inbound.blocked

expand-Lacks : (s : Bytes) → Lacks b'\r' s → expand (swap_byte b'\r' []) s ≡ s
expand-Lacks [] l = refl
expand-Lacks (c ∷ s) (a, l) =
    let miss : (b'\r' == c) ≡ false = ground (arith, a) in rw miss (ap (◌∷◌ c) (expand-Lacks s l))

gsub_some :
    (s : Bytes)
    → gsub (s ++ codes "\r") (codes "\r") []
      ≡ Outcome.returns (expand (swap_byte b'\r' []) (s ++ codes "\r"))
gsub_some [] = gsub_byte b'\r' [] b'\r' []
gsub_some (c ∷ s) = gsub_byte c (s ++ codes "\r") b'\r' []

strip_line :
    (s : Bytes) → Lacks b'\r' s → gsub (s ++ codes "\r") (codes "\r") [] ≡ Outcome.returns s
strip_line s l =
    gsub_some s
    ∙ ap Outcome.returns (
        expand-append (swap_byte b'\r' []) s (codes "\r")
        ∙ append-nil (expand (swap_byte b'\r' []) s)
        ∙ expand-Lacks s l)

push_ready :
    (s : Bytes) (q : Queue Bytes)
    → q.ready ≡ true
    → Queue.push s q ≡ Queue.returns (Queue.store s (Queue.count_in q))
unfolding Queue.push
push_ready s q h = rw h

take_line_broken :
    (e : SocketError) (s : Bytes) (h : ComHandler) (next : ComHandler → Thread)
    → e ≢ timeout_exception
    → take_line (Socket.throws e s) h next ≡ done h
unfolding take_line
take_line_broken Socket.general_exception s h next k = refl
take_line_broken Socket.not_open_exception s h next k = refl
take_line_broken Socket.overrun_exception s h next k = refl
take_line_broken timeout_exception s h next k = absurd (k refl)
take_line_broken Socket.buffer_full_exception s h next k = refl
take_line_broken Socket.bad_args_exception s h next k = refl

take_line_late :
    (s : Bytes) (h : ComHandler) (next : ComHandler → Thread)
    → take_line (Socket.throws timeout_exception s) h next ≡ next h
unfolding take_line
take_line_late s h next = refl

abbrev took : Bytes → ComHandler → ComHandler
took s h = record h { inbound = Queue.store s (Queue.count_in h.inbound) }

took_ready : (s : Bytes) (h : ComHandler) → h.inbound.ready ≡ true → (took s h).inbound.ready ≡ true
unfolding Queue.store Queue.count_in
took_ready s h r = r

took-HasGained :
    (s : Bytes) (texts : List Bytes) (h : ComHandler) (out : Thread)
    → HasGained (took s h) texts out
    → HasGained h (s ∷ texts) out
unfolding Queue.store Queue.count_in
took-HasGained s texts h out g = record {
  gained = g.gained ∙ append_assoc h.inbound.buffer (s ∷ []) texts;
  open_queue = g.open_queue;
  free = g.free;
}

read_loop-HasGained :
    (es : List Event) (h : ComHandler)
    → AllLines es
    → h.inbound.ready ≡ true
    → HasGained h (lines_of es) (read_loop (rounds_of es) h)
unfolding read_loop
read_loop-HasGained [] h a r = record {
  gained = sym (append-nil h.inbound.buffer);
  open_queue = r;
  free = refl;
}
read_loop-HasGained (line s ∷ es) h (l, a) r =
    let e : take_line (Socket.returns (s ++ codes "\r")) h (read_loop (rounds_of es))
        ≡ read_loop (rounds_of es) (took s h) =
      unfold take_line in
      (ap (λ o. stripped o h (read_loop (rounds_of es))) (strip_line s l)
        ∙ ap (λ o. pushed h o (read_loop (rounds_of es))) (push_ready s h.inbound r)) in
    rw e (
      took-HasGained s (lines_of es) h (read_loop (rounds_of es) (took s h))
        (read_loop-HasGained es (took s h) a (took_ready s h r)))
read_loop-HasGained (late s ∷ es) h a r =
    rw (take_line_late s h (read_loop (rounds_of es))) (read_loop-HasGained es h a r)
read_loop-HasGained (broken e k s ∷ es) h a r =
    rw (take_line_broken e s h (read_loop (rounds_of es)) k)
      record { gained = sym (append-nil h.inbound.buffer); open_queue = r; free = refl }

get_empty : (h : ComHandler) → h.inbound.ready ≡ true → h.inbound.buffer ≡ [] → get h ≡ Queue.waits
unfolding get Queue.pop
get_empty h r e = rw (e, r) refl

-- The program has taken all that was handed on, `k` items in its life.
abbrev pub emptied : ℕ → ComHandler → ComHandler
emptied k h = record h { inbound = record h.inbound { buffer = []; out_count = k } }

-- The thread hands the lines on in their order, each without its carriage return, across timeouts, up
-- to the first other exception. It leaves the queue open then: when the program has taken what was
-- handed on, its next `get` waits, also after the thread has ended, with nobody left to push.
pub worker_lem :
    (es : List Event) (h : ComHandler)
    → AllLines es
    → h.inbound.ready ≡ true
    → HasGained h (lines_of es) (worker true (rounds_of es) h)
      × ((k : ℕ) → get (emptied k (handler (worker true (rounds_of es) h))) ≡ Queue.waits)
unfolding worker
worker_lem es h a r =
    let g = read_loop-HasGained es (record h { active = true }) a r in
    (
      record { gained = g.gained; open_queue = g.open_queue; free = g.free },
      λ k.
          get_empty (emptied k (handler (read_loop (rounds_of es) (record h { active = true }))))
            g.open_queue refl,
    )
