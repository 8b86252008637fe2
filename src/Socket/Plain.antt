-- ===== src/Socket/Plain.antt =====
-- src/handlers/CNetHandler_linux.cpp: the life of a plain socket, without TLS. What a call of the
-- kernel answers is an argument; what is asked of it and gives no answer is a list of `SystemCall`.
pub mod Listening
pub mod Descriptors
use solusek.Base.{
  ℕ, ◌%◌, Bool, true, false, List, [], ◌∷◌, ◌++◌, Option, none, some, if◌then◌else◌, ◌==◌, Bytes, ℤ,
  pos, negsuc, u32_of_int,
}
use solusek.Socket.Access.{IpAddressItem, accepts}

-- `setsockopt` with its value, `shutdown` and `close` of a descriptor.
pub data SystemCall : Type 0 where
  set_reuse_address : ℤ → ℤ → SystemCall
  set_keep_alive : ℤ → ℤ → SystemCall
  set_send_timeout : ℤ → ℤ → SystemCall
  set_receive_timeout : ℤ → ℤ → SystemCall
  shut_down : ℤ → SystemCall
  close_descriptor : ℤ → SystemCall

-- `ready` is `none` where the constructor leaves the member as it finds it.
pub record PlainSocket : Type 0 where
  pub sid : ℤ
  pub ready : Option Bool
  pub throw_exceptions : Bool
  pub timeout : ℤ
  pub client_ip_addr : Bytes
  pub blacklist : List IpAddressItem
  pub whitelist : List IpAddressItem

abbrev pub is_zero : ℤ → Bool
is_zero (pos n) = n == 0
is_zero (negsuc n) = false

-- `INVALID_SOCKET` is 0.
abbrev pub opened_ready : ℤ → Bool
opened_ready opened = if is_zero opened then false else true

abbrev pub first_options : ℤ → List SystemCall
first_options opened =
    if is_zero opened
    then []
    else set_reuse_address opened (pos 1)
      ∷ set_keep_alive opened (pos 0)
      ∷ set_send_timeout opened (pos 10)
      ∷ []

abbrev pub socket_of : ℤ → Option Bool → Option Bytes → PlainSocket
socket_of sid ready ipaddr = record {
  sid = sid;
  ready = ready;
  throw_exceptions = false;
  timeout = pos 0;
  client_ip_addr = elim ipaddr [ none ↦ [] | some a ↦ a ];
  blacklist = [];
  whitelist = [];
}

-- The constructor; `opened` is what `::socket` returns if it is called.
unfoldable pub new_plain_socket : ℤ → ℤ → Option Bytes → PlainSocket × List SystemCall
new_plain_socket opened sid ipaddr =
    if is_zero sid
    then (socket_of opened (some (opened_ready opened)) ipaddr, first_options opened)
    else (socket_of sid none ipaddr, [])

unfoldable pub set_socket_timeout : ℤ → PlainSocket → PlainSocket × List SystemCall
set_socket_timeout timeout s = (
  record s { timeout = timeout },
  set_receive_timeout s.sid timeout ∷ set_send_timeout s.sid timeout ∷ [],
)

unfoldable pub set_throw_exceptions : Bool → PlainSocket → PlainSocket
set_throw_exceptions enabled s = record s { throw_exceptions = enabled }

unfoldable pub add_blacklist : IpAddressItem → PlainSocket → PlainSocket
add_blacklist item s = record s { blacklist = s.blacklist ++ item ∷ [] }

unfoldable pub add_whitelist : IpAddressItem → PlainSocket → PlainSocket
add_whitelist item s = record s { whitelist = s.whitelist ++ item ∷ [] }

-- `htons(port)`, before the bytes are put in the order of the network.
abbrev pub port_of : ℤ → ℕ
port_of port = u32_of_int port % 65536

-- `bind`: `inet_addr` reads the host, `kernel_bind` is `::bind` of an address and a port.
unfoldable pub bind_socket : (Bytes → ℕ) → (ℤ → ℕ → ℕ → ℤ) → PlainSocket → ℤ → Option Bytes → Bool
bind_socket inet_addr kernel_bind s port host =
    is_zero (kernel_bind s.sid (elim host [ none ↦ 0 | some h ↦ inet_addr h ]) (port_of port))

-- `connect`: `resolve` is `getaddrinfo`, with nothing for an error.
unfoldable pub connect_socket :
    (Bytes → Option ℕ) → (ℤ → ℕ → ℕ → ℤ) → PlainSocket → Bytes → ℤ → Bool
connect_socket resolve kernel_connect s host port = elim (resolve host) [
  | none ↦ false
  | some addr ↦ is_zero (kernel_connect s.sid addr (port_of port))
]

unfoldable pub close_socket : PlainSocket → List SystemCall
close_socket s = shut_down s.sid ∷ close_descriptor s.sid ∷ []

-- The destructor, of a socket with no TLS.
unfoldable pub destroy_socket : PlainSocket → List SystemCall
unfolding close_socket
destroy_socket s = close_socket s

-- One return of `::accept` with the address of the client as text.
pub record Arrival : Type 0 where
  pub sid : ℤ
  pub ipaddr : Bytes

-- `SOCKET_ERROR`
abbrev pub is_socket_error : ℤ → Bool
is_socket_error (pos n) = false
is_socket_error (negsuc n) = n == 0

-- `while((sid = ::accept(...)) == SOCKET_ERROR)`: the first return that is no error, and those
-- behind it; `none` if there is none among these returns, and the loop goes on.
unfoldable pub accept_loop : List Arrival → Option (Arrival × List Arrival)
accept_loop [] = none
accept_loop (a ∷ later) = if is_socket_error a.sid then accept_loop later else some (a, later)

-- What `accept` gives: a socket, 0 for an address that is turned away, a thrown `out_of_range`.
pub data Accepted : Type 0 where
  connection : PlainSocket → Accepted
  turned_away : Accepted
  threw : Accepted

-- Behind the loop: the constructor is given the descriptor, and opens a socket of its own if that
-- is 0.
unfoldable pub admit : ℤ → PlainSocket → Arrival → Accepted × List SystemCall
unfolding new_plain_socket accepts
admit opened s a = elim (accepts a.ipaddr s.whitelist s.blacklist) [
  | none ↦ (threw, [])
  | some ok ↦
      if ok
      then (let (sock, calls) = new_plain_socket opened a.sid (some a.ipaddr) in
          (connection sock, calls))
      else (turned_away, close_descriptor a.sid ∷ [])
]

unfoldable pub accept_socket :
    ℤ → PlainSocket → List Arrival → Option ((Accepted × List SystemCall) × List Arrival)
unfolding accept_loop admit
accept_socket opened s arrivals = elim (accept_loop arrivals) [
  | none ↦ none
  | some r ↦ some (admit opened s r.0, r.1)
]
