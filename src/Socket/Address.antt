-- ===== src/Socket/Address.antt =====
-- Addresses as texts, and the calls of tcp_socket that take or give one. Names and numbers are turned
-- into each other by the operating system and the streams, which are parameters.
use nrtb_redo.Common.{
  ℕ, ◌≡◌, ◌≢◌, refl, sym, ap, ◌∙◌, true, false, List, [], ◌∷◌, ◌++◌, Option, none, some,
  if◌then◌else◌, ltb, Bool-cases, inl, inr, arith,
}
use nrtb_redo.Common.Bytes.{Bytes, codes, same_bytes, Lacks}
use nrtb_redo.Text.Split.{split, split-pieces, pieces-hit, pieces-Lacks}
use nrtb_redo.Config.Order.{same_bytes_refl}
use nrtb_redo.Socket.{Conn, Errno, enotconn, enobufs, sock_connect, sock_close}

-- `sockaddr_in`; the port in the order of the host.
pub record Address : Type 0 where
  pub ip : ℕ
  pub port : ℕ

-- `gethostbyname` with its first address, `inet_aton`, `inet_ntoa`, and the two casts of a port.
pub record Names : Type 0 where
  pub gethostbyname : Bytes → Option ℕ
  pub inet_aton : Bytes → Option ℕ
  pub inet_ntoa : ℕ → Bytes
  pub cast_port : Bytes → ℕ
  pub show_port : ℕ → Bytes

pub data AddressError : Type 0 where
  bad_address_exception cant_bind_exception bad_connect_exception close_exception : AddressError
  buffer_full_exception general_exception not_open_exception : AddressError

pub data Tried (A : Type 0) : Type 0 where
  gives : A → Tried A
  fails : AddressError → Tried A

abbrev pub colon : ℕ
colon = b':'

abbrev pub star : Bytes
star = codes "*"

module _ (names : Names) where
  unfoldable pub ip_of : Bytes → Tried ℕ
  ip_of name = if same_bytes name star then gives 0 else elim (names.gethostbyname name) [
    | some a ↦ gives a
    | none ↦ elim (names.inet_aton name) [ some a ↦ gives a | none ↦ fails bad_address_exception ]
  ]

  unfoldable pub port_of : Bytes → ℕ
  port_of text = if same_bytes text star then 0 else names.cast_port text

  abbrev pub with_port : Bytes → Tried ℕ → Tried Address
  with_port text (gives a) = gives (record { ip = a; port = port_of text })
  with_port text (fails e) = fails e

  abbrev pub two_parts : List Bytes → Tried Address
  two_parts (name ∷ text ∷ []) = with_port text (ip_of name)
  two_parts [] = fails bad_address_exception
  two_parts (name ∷ []) = fails bad_address_exception
  two_parts (name ∷ text ∷ more ∷ parts) = fails bad_address_exception

  unfoldable pub str_to_sockaddr : Bytes → Tried Address
  unfolding ip_of port_of split
  str_to_sockaddr address = two_parts (split address colon)

  unfoldable pub sockaddr_to_str : Address → Bytes
  sockaddr_to_str a =
      let shown = names.inet_ntoa a.ip in
      (if same_bytes shown (codes "0.0.0.0") then star else shown)
      ++ (colon ∷ (if ltb 0 a.port then names.show_port a.port else star))

  -- `bind`; `*:*` is left to the system. The error is `errno`.
  unfoldable pub bind : Bytes → Option Errno → Conn → Tried Conn × Conn
  unfolding str_to_sockaddr
  bind address result c =
      let addressed = str_to_sockaddr address in
      if same_bytes address (codes "*:*") then (gives c, c) else elim addressed [
        | fails e ↦ (fails e, c)
        | gives a ↦ elim result [
          | none ↦ (gives c, c)
          | some e ↦ (fails cant_bind_exception, record c { last_error = e })
        ]
      ]

  unfoldable pub connect : Bytes → Option Errno → Conn → Tried Conn × Conn
  unfolding str_to_sockaddr
  connect address result c = elim (str_to_sockaddr address) [
    | fails e ↦ (fails e, c)
    | gives a ↦ elim result [
      | none ↦ let d : Conn = record c { status = sock_connect } in (gives d, d)
      | some e ↦ (fails bad_connect_exception, record c { last_error = e })
    ]
  ]

  unfoldable pub close : Option Errno → Conn → Tried Conn × Conn
  close none c = let d : Conn = record c { status = sock_close } in (gives d, d)
  close (some e) c = (fails close_exception, record c { last_error = e })

  -- `getsockname` and `getpeername` fail, or give an address.
  unfoldable pub get_local_address : Option Errno → Address → Tried Bytes
  unfolding sockaddr_to_str
  get_local_address none a = gives (sockaddr_to_str a)
  get_local_address (some enobufs) a = fails buffer_full_exception
  get_local_address (some e) a = fails general_exception

  unfoldable pub get_remote_address : Option Errno → Address → Conn → Tried Bytes × Conn
  unfolding sockaddr_to_str
  get_remote_address none a c = (gives (sockaddr_to_str a), c)
  get_remote_address (some enotconn) a c =
      (fails not_open_exception, record c { status = sock_close })
  get_remote_address (some enobufs) a c = (fails buffer_full_exception, c)
  get_remote_address (some e) a c = (fails general_exception, c)

  -- The parts of a shown address.
  abbrev shown_ip : Address → Bytes
  shown_ip a =
      if same_bytes (names.inet_ntoa a.ip) (codes "0.0.0.0") then star else names.inet_ntoa a.ip

  abbrev shown_port : Address → Bytes
  shown_port a = if ltb 0 a.port then names.show_port a.port else star

  -- What the system does with the address and the port at hand: a dotted address has no colon and is
  -- not `*`, it is resolved to what it was made of, and only 0 is shown as 0.0.0.0; a port that is not 0
  -- is shown as digits that are read back.
  pub record IsNamed (a : Address) : Type 0 where
    pub ip_text : Lacks colon (names.inet_ntoa a.ip)
    pub ip_star : same_bytes (names.inet_ntoa a.ip) star ≡ false
    pub resolved : names.gethostbyname (names.inet_ntoa a.ip) ≡ some a.ip
    pub only_zero : same_bytes (names.inet_ntoa a.ip) (codes "0.0.0.0") ≡ true → a.ip ≡ 0
    pub port_text : Lacks colon (names.show_port a.port)
    pub port_star : same_bytes (names.show_port a.port) star ≡ false
    pub port_read : names.cast_port (names.show_port a.port) ≡ a.port

  star-Lacks : Lacks colon star
  star-Lacks = ((λ e. ground (arith, e)), tt)

  module _ (a : Address) (v : IsNamed a) where
    ip_of-shown_ip : ip_of (shown_ip a) ≡ gives a.ip
    unfolding ip_of
    ip_of-shown_ip = elim (Bool-cases (same_bytes (names.inet_ntoa a.ip) (codes "0.0.0.0"))) [
      | inl e ↦ rw (e, same_bytes_refl star) (ap gives (sym (v.only_zero e)))
      | inr e ↦ rw (e, v.ip_star, v.resolved) refl
    ]

    port_of-shown_port : port_of (shown_port a) ≡ a.port
    unfolding port_of
    port_of-shown_port = elim (Bool-cases (ltb 0 a.port)) [
      | inl e ↦ rw (e, v.port_star) v.port_read
      | inr e ↦ rw (e, same_bytes_refl star) (ground (arith, e))
    ]

    shown_ip-Lacks : Lacks colon (shown_ip a)
    shown_ip-Lacks = elim (Bool-cases (same_bytes (names.inet_ntoa a.ip) (codes "0.0.0.0"))) [
      | inl e ↦ rw e star-Lacks
      | inr e ↦ rw e v.ip_text
    ]

    shown_port-Lacks : Lacks colon (shown_port a)
    shown_port-Lacks = elim (Bool-cases (ltb 0 a.port)) [
      | inl e ↦ rw e v.port_text
      | inr e ↦ rw e star-Lacks
    ]

    append_nonempty : (xs ys : Bytes) → xs ++ (colon ∷ ys) ≢ []
    append_nonempty [] ys e = cc
    append_nonempty (x ∷ xs) ys e = cc

    split_shown :
        split (shown_ip a ++ (colon ∷ shown_port a)) colon ≡ shown_ip a ∷ shown_port a ∷ []
    split_shown =
        split-pieces (shown_ip a ++ (colon ∷ shown_port a)) colon
          (append_nonempty (shown_ip a) (shown_port a))
        ∙ pieces-hit colon (shown_ip a) (shown_port a) shown_ip-Lacks
        ∙ ap (◌∷◌ (shown_ip a)) (pieces-Lacks colon (shown_port a) shown_port-Lacks)

  -- A shown address, wild cards included, is read back as the address it was.
  pub str_to_sockaddr-sockaddr_to_str :
      (a : Address) → IsNamed a → str_to_sockaddr (sockaddr_to_str a) ≡ gives a
  unfolding str_to_sockaddr sockaddr_to_str
  str_to_sockaddr-sockaddr_to_str a v =
      ap two_parts (split_shown a v)
      ∙ ap (with_port (shown_port a)) (ip_of-shown_ip a v)
      ∙ ap (λ n. gives (record { ip = a.ip; port = n })) (port_of-shown_port a v)
