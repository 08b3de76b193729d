-- ===== src/Socket.antt =====
-- cpp/common/sockets/base_socket.h and base_socket.cpp: a connected tcp_socket. What the operating
-- system answers to `send` and `recv` stands in a list, one answer for each call; when the list ends,
-- the call waits. `clock` gives the readings of `time(NULL)`, one after the other.
pub mod Address
pub mod Get
pub mod Getln
pub mod Listen
pub mod Put
mod Tests
use nrtb_redo.Common.{ℕ, suc, ◌+◌, Bool, true, false, ◌&&◌, List, [], ◌∷◌}
use nrtb_redo.Common.Int
use nrtb_redo.Common.Int.{ℤ, pos, negsuc}
use nrtb_redo.Common.Bytes.{Bytes}

pub data Status : Type 0 where
  sock_undef sock_init sock_connect sock_close : Status

-- The values of `errno` that the sources name, and the others.
pub data Errno : Type 0 where
  no_error ebadf enotsock enotconn enobufs enomem eintr eagain : Errno
  other : ℕ → Errno

-- The exceptions of tcp_socket; `comment()` gives the stored text.
pub data SocketError : Type 0 where
  general_exception not_open_exception overrun_exception timeout_exception : SocketError
  buffer_full_exception bad_args_exception : SocketError

-- What a call of put, get or getln comes to; it waits with the text that it has in hand.
pub data Call (A : Type 0) : Type 0 where
  returns : A → Call A
  throws : SocketError → Bytes → Call A
  waits : Bytes → Call A

-- The members, with the bytes that the peer has sent or will send, those that were handed over to
-- `send`, and the number of clock readings so far.
pub record Conn : Type 0 where
  pub status : Status
  pub last_error : Errno
  pub incoming : Bytes
  pub sent : Bytes
  pub ticks : ℕ

abbrev pub is_positive : ℤ → Bool
is_positive t = Int.lt (pos 0) t

abbrev pub is_zero : ℤ → Bool
is_zero t = Int.eq t (pos 0)

abbrev pub tick : Conn → Conn
tick c = record c { ticks = suc c.ticks }

-- `endtime = time(NULL) + timeout`
abbrev pub end_of : (ℕ → ℕ) → ℤ → Conn → ℤ
end_of clock timeout c = Int.plus (pos (clock c.ticks)) timeout
