-- ===== src/Bot/Sent.antt =====
-- The thread that writes the messages for the control program to the socket.
use nrtb_redo.Common.{
  ℕ, ◌≡◌, refl, sym, ap, ◌∙◌, Bool, true, false, List, [], ◌∷◌, ◌++◌, append_assoc, append-nil,
  length, Bool-cases, inl, inr,
}
use nrtb_redo.Common.Bytes.{Bytes, codes}
use nrtb_redo.Common.Int.{ℤ, pos}
use nrtb_redo.Queue.{Queue, Attempt}
use nrtb_redo.Queue
use nrtb_redo.Socket.{Call, Conn}
use nrtb_redo.Socket
use nrtb_redo.Socket.Put.{SendAnswer, put}
use nrtb_redo.Socket.Put.Accounted.{Accounted, put_lem}

-- The members of the bot that the thread uses.
pub record Sender : Type 0 where
  pub im_alive : Bool
  pub to_bcp : Queue Bytes
  pub conn : Conn

-- One round: what the thread reads in `ImAlive`, and the answers to its calls of `send`.
pub record Round : Type 0 where
  pub alive : Bool
  pub answers : List SendAnswer

-- The thread waits, with these bytes still in hand, or it has ended, with these bytes lost.
pub data Sending : Type 0 where
  waiting ended : Bytes → Sender → Sending

abbrev pub sender : Sending → Sender
sender (waiting s b) = b
sender (ended s b) = b

abbrev pub in_hand : Sending → Bytes
in_hand (waiting s b) = s
in_hand (ended s b) = s

abbrev pub dead : Sender → Sender
dead b = record b { im_alive = false }

-- The timeout that `put` has by default.
abbrev pub ten : ℤ
ten = pos 10

abbrev pub after_put : Sender → Call ℕ × Conn → (Sender → Sending) → Sending
after_put b (Socket.returns k, c) next = next (record b { conn = c })
after_put b (Socket.throws e s, c) next = ended s (dead (record b { conn = c }))
after_put b (Socket.waits s, c) next = waiting s (record b { conn = c })

module _ (clock : ℕ → ℕ) where
  abbrev pub popped :
      List SendAnswer → Sender → Attempt (Bytes × Queue Bytes) → (Sender → Sending) → Sending
  popped answers b Queue.waits next = waiting [] b
  popped answers b Queue.queue_not_ready next = ended [] (dead b)
  popped answers b Queue.undefined next = ended [] (dead b)
  popped answers b (Queue.returns (s, q)) next =
      after_put (record b { to_bcp = q }) (put clock answers (s ++ codes "\r") ten b.conn) next

  unfoldable pub transmitter : List Round → Sender → Sending
  transmitter [] b = waiting [] b
  transmitter (r ∷ rounds) b = elim r.alive [
    | false ↦ ended [] b
    | true ↦ popped r.answers b (Queue.pop b.to_bcp) (transmitter rounds)
  ]

  -- The messages, each with a carriage return behind it.
  abbrev pub lines : List Bytes → Bytes
  lines [] = []
  lines (s ∷ ss) = (s ++ codes "\r") ++ lines ss

  -- The messages `taken` left the queue, from its front, and what was handed over since, with what is in
  -- hand, is the text of these.
  pub record HasSent (b : Sender) (out : Sending) : Type 0 where
    pub taken : List Bytes
    pub left_queue : b.to_bcp.buffer ≡ taken ++ (sender out).to_bcp.buffer
    pub wrote : (sender out).conn.sent ++ in_hand out ≡ b.conn.sent ++ lines taken

  idle : (b : Sender) → HasSent b (waiting [] b)
  idle b = record { taken = []; left_queue = refl; wrote = refl }

  stopped : (b c : Sender) → c.to_bcp ≡ b.to_bcp → c.conn ≡ b.conn → HasSent b (ended [] c)
  stopped b c same_queue same_conn = record {
    taken = [];
    left_queue = ap (λ q. q.buffer) (sym same_queue);
    wrote = ap (λ x. x.sent ++ []) same_conn;
  }

  after_put-HasSent :
      (b : Sender) (s : Bytes) (q : Queue Bytes) (p : Call ℕ × Conn) (next : Sender → Sending)
      → b.to_bcp.buffer ≡ s ∷ q.buffer
      → Accounted (length (s ++ codes "\r")) (b.conn.sent ++ (s ++ codes "\r")) p
      → ((b' : Sender) → HasSent b' (next b'))
      → HasSent b (after_put (record b { to_bcp = q }) p next)
  after_put-HasSent b s q (Socket.returns k, c) next e (sent, whole) later =
      let h = later (record b { to_bcp = q; conn = c }) in
      let all_of : c.sent ≡ b.conn.sent ++ (s ++ codes "\r") = sym (append-nil c.sent) ∙ sent in
      record {
        taken = s ∷ h.taken;
        left_queue = e ∙ ap (◌∷◌ s) h.left_queue;
        wrote =
            h.wrote
            ∙ ap (λ x. x ++ lines h.taken) all_of
            ∙ append_assoc b.conn.sent (s ++ codes "\r") (lines h.taken);
      }
  after_put-HasSent b s q (Socket.throws x u, c) next e (sent, whole) later = record {
    taken = s ∷ [];
    left_queue = e;
    wrote = sent ∙ ap (◌++◌ b.conn.sent) (sym (append-nil (s ++ codes "\r")));
  }
  after_put-HasSent b s q (Socket.waits u, c) next e (sent, whole) later = record {
    taken = s ∷ [];
    left_queue = e;
    wrote = sent ∙ ap (◌++◌ b.conn.sent) (sym (append-nil (s ++ codes "\r")));
  }

  popped-HasSent :
      (b : Sender) (answers : List SendAnswer) (p : Attempt (Bytes × Queue Bytes))
      (next : Sender → Sending)
      → Queue.pop b.to_bcp ≡ p
      → ((b' : Sender) → HasSent b' (next b'))
      → HasSent b (popped answers b p next)
  popped-HasSent b answers Queue.waits next e later = idle b
  popped-HasSent b answers Queue.queue_not_ready next e later = stopped b (dead b) refl refl
  popped-HasSent b answers Queue.undefined next e later = stopped b (dead b) refl refl
  popped-HasSent b answers (Queue.returns (s, q)) next e later =
      after_put-HasSent b s q (put clock answers (s ++ codes "\r") ten b.conn) next
        (Queue.pop-returns b.to_bcp s q e).2 (put_lem clock answers (s ++ codes "\r") ten b.conn)
        later

  -- However the sends go: the messages leave the queue from its front, in their order, and each is sent
  -- as it is with a carriage return behind it, none left out or sent twice: what was handed over and
  -- what the thread still has in hand, when it ends or waits, are together the text of the messages that
  -- it took.
  pub transmitter-HasSent : (rounds : List Round) (b : Sender) → HasSent b (transmitter rounds b)
  unfolding transmitter
  transmitter-HasSent [] b = idle b
  transmitter-HasSent (r ∷ rounds) b = elim (Bool-cases r.alive) [
    | inr dead_ ↦ rw dead_ (stopped b b refl refl)
    | inl alive ↦ rw alive (
        popped-HasSent b r.answers (Queue.pop b.to_bcp) (transmitter rounds) refl
          (transmitter-HasSent rounds))
  ]
