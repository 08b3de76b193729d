-- ===== src/Socket/Tests.antt =====
-- The theorems about sockets, at short texts.
use nrtb_redo.Common.{◌≡◌, refl, true, false, List, [], ◌∷◌, ◌++◌, none, some, arith}
use nrtb_redo.Common.Int.{pos}
use nrtb_redo.Common.Bytes.{Bytes, codes, Lacks, same_bytes}
use nrtb_redo.Queue
use nrtb_redo.Socket.{Conn, sock_connect, no_error, eintr, returns}
use nrtb_redo.Socket.Put.{took, send_failed, put}
use nrtb_redo.Socket.Put.Accounted.{Accounted, put_lem}
use nrtb_redo.Socket.Get.{RecvAnswer, ready, recv_failed, get}
use nrtb_redo.Socket.Get.Kept.{KeptIn, get_lem}
use nrtb_redo.Socket.Getln.{getln}
use nrtb_redo.Socket.Getln.Line.{still, arrivals}
use nrtb_redo.Socket.Getln.Whole.{getln_line}
use nrtb_redo.Socket.Listen.Pending.{Gained, IsBare, accepted_of, run_loop_lem}
use nrtb_redo.Socket.Listen.{Round, Listener, connected, refused, eagain, other, run_loop}
use nrtb_redo.Socket.Address.{
  Address, Names, IsNamed, gives, str_to_sockaddr, sockaddr_to_str, str_to_sockaddr-sockaddr_to_str,
}

abbrev conn : Bytes → Conn
conn s = record { status = sock_connect; last_error = no_error; incoming = s; sent = []; ticks = 0 }

-- In two pieces, with an interruption between them.
put_lem_example :
    Accounted 4
      ([] ++ codes "ping")
      (put (λ k. k) (took 1 ∷ send_failed eintr ∷ took 9 ∷ []) (codes "ping") (pos 10) (conn []))
put_lem_example =
    put_lem (λ k. k) (took 1 ∷ send_failed eintr ∷ took 9 ∷ []) (codes "ping") (pos 10) (conn [])

get_lem_example :
    KeptIn 3
      (codes "tick\r")
      (get (λ k. k) (ready 1 ∷ recv_failed eintr ∷ ready 9 ∷ []) 3 (pos 10) (conn (codes "tick\r")))
get_lem_example =
    get_lem (λ k. k) (ready 1 ∷ recv_failed eintr ∷ ready 9 ∷ []) 3 (pos 10) (conn (codes "tick\r"))

go-Lacks : Lacks b'\r' (codes "go")
go-Lacks = ((λ e. ground (arith, e)), ((λ e. ground (arith, e)), tt))

getln_line_example :
    (d : Conn) × (answers : List RecvAnswer) × (getln
        (still 5)
        (arrivals (0 ∷ 7 ∷ 0 ∷ 0 ∷ []))
        (codes "\r")
        0
        (pos 10)
        (conn (codes "go\rx"))
      ≡ (returns (codes "go" ++ codes "\r"), answers, d))
    × (d.incoming ≡ codes "x")
getln_line_example =
    getln_line 5 b'\r' (pos 10) (codes "go") (codes "x") (0 ∷ 7 ∷ 0 ∷ 0 ∷ []) (conn (codes "go\rx"))
      go-Lacks refl (omega arith)

abbrev rounds : List Round
rounds =
    record { shuts = false; open_before = true; open_after = true; accepted = connected 7 }
    ∷ record { shuts = false; open_before = true; open_after = true; accepted = refused eagain }
    ∷ record { shuts = false; open_before = true; open_after = true; accepted = connected 8 }
    ∷ record { shuts = false; open_before = true; open_after = true; accepted = refused (other 9) }
    ∷ record { shuts = false; open_before = true; open_after = true; accepted = connected 9 }
    ∷ []

abbrev listener : Listener
listener = record {
  in_run_method = true;
  joinable = true;
  listen_sock = some sock_connect;
  pending = Queue.empty;
  last_fault = 0;
}

abbrev last_round : Round
last_round = record { shuts = true; open_before = true; open_after = true; accepted = connected 5 }

run_loop_lem_example :
    Gained listener (accepted_of rounds) (run_loop rounds listener)
    × IsBare (run_loop (last_round ∷ rounds) listener)
run_loop_lem_example =
    run_loop_lem rounds rounds last_round listener (refl, (refl, (refl, (refl, (refl, tt)))))
      (unfold Queue.empty in refl) refl

-- Addresses and ports of one digit.
abbrev digits : Names
digits = record {
  gethostbyname = λ s. elim s [ [] ↦ none | c ∷ t ↦ some c ];
  inet_aton = λ s. none;
  inet_ntoa = λ n. n ∷ [];
  cast_port = λ s. elim s [ [] ↦ 0 | c ∷ t ↦ c ];
  show_port = λ n. n ∷ [];
}

abbrev local : Address
local = record { ip = 97; port = 0 }

local-IsNamed : IsNamed digits local
unfolding same_bytes
local-IsNamed = record {
  ip_text = ((λ e. ground (arith, e)), tt);
  ip_star = refl;
  resolved = refl;
  only_zero = λ e. cc;
  port_text = ((λ e. ground (arith, e)), tt);
  port_star = refl;
  port_read = refl;
}

str_to_sockaddr-sockaddr_to_str_example :
    str_to_sockaddr digits (sockaddr_to_str digits local) ≡ gives local
str_to_sockaddr-sockaddr_to_str_example = str_to_sockaddr-sockaddr_to_str digits local local-IsNamed
