-- ===== src/Bot/Tests.antt =====
-- The theorems about bots, over whole numbers in place of floats.
use nrtb_redo.Common.{◌≡◌, refl, true, [], ◌∷◌, List}
use nrtb_redo.Common.Bytes.{Bytes, codes}
use nrtb_redo.Common.Int.{ℤ, pos}
use nrtb_redo.Floats.{int_floats}
use nrtb_redo.Object.Whole.{ball}
use nrtb_redo.Queue
use nrtb_redo.Queue.{Queue}
use nrtb_redo.Socket.{sock_connect, no_error, enotconn}
use nrtb_redo.Socket.Put.{took, send_failed}
use nrtb_redo.Bot.Sent.{Sender, Round, transmitter, HasSent, transmitter-HasSent}
use nrtb_redo.Steer.{construct}
use nrtb_redo.Steer.Kit.{Kit, kit, steer_pre}
use nrtb_redo.Bot.{Bot, Printing, done, route}
use nrtb_redo.Bot.Answers.{Answered, route_lem}

abbrev printing : Printing ℤ
printing = record {
  show = λ a. codes "7";
  show_triad = λ v. codes "(0,0,0)";
  read_into = λ s a. pos 7;
}

abbrev bot : Queue Bytes → Bot ℤ (Kit ℤ)
bot q = record {
  object = record {
    body = ball (pos 0) (pos 0) (pos 4);
    effectors = λ i. steer_pre (construct (pos 9) (pos 8) (pos 1));
    cmd_attribs = 1 ∷ [];
    pre_attribs = 1 ∷ [];
    post_attribs = [];
    dropped_attribs = [];
  };
  im_alive = true;
  to_bcp = q;
  from_bcp = Queue.empty;
  auto_on = true;
  set_speed = pos 3;
  set_heading = pos 0;
  power_limit = pos 50;
  turn_limit = pos 10;
}

route_lem_example :
    (d : Bot ℤ (Kit ℤ)) × (route printing
        (kit (λ a. codes "7") (λ s. pos 7))
        (codes "drive status")
        (bot Queue.empty)
      ≡ done d)
    × Answered Queue.empty d.to_bcp
route_lem_example =
    route_lem printing Queue.empty (unfold Queue.empty in refl) (kit (λ a. codes "7") (λ s. pos 7))
      (codes "drive status") (bot Queue.empty) refl

-- Two messages, of which the socket takes the first in two pieces and fails at the second.
abbrev sending : Sender
sending = record {
  im_alive = true;
  to_bcp = Queue.store (codes "b") (Queue.store (codes "ab") Queue.empty);
  conn = record {
    status = sock_connect;
    last_error = no_error;
    incoming = [];
    sent = [];
    ticks = 0;
  };
}

abbrev rounds : List Round
rounds =
    record { alive = true; answers = took 1 ∷ took 2 ∷ [] }
    ∷ record { alive = true; answers = send_failed enotconn ∷ [] }
    ∷ []

transmitter-HasSent_example : HasSent (λ k. k) sending (transmitter (λ k. k) rounds sending)
transmitter-HasSent_example = transmitter-HasSent (λ k. k) rounds sending
