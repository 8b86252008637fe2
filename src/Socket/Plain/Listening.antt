-- ===== src/Socket/Plain/Listening.antt =====
-- What `accept` gives, and when.
use solusek.Base.{
  Bool, true, false, List, [], ◌∷◌, ◌++◌, ◌≡◌, refl, ap, Option, none, some, Bytes, ℤ, pos, All,
}
use solusek.Socket.Access.{accepts}
use solusek.Socket.Plain.{
  SystemCall, close_descriptor, PlainSocket, is_zero, first_options, opened_ready, socket_of,
  Arrival, is_socket_error, accept_loop, Accepted, connection, turned_away, threw, admit,
  accept_socket,
}

abbrev pub IsError : Arrival → Type 0
IsError a = is_socket_error a.sid ≡ true

-- What is done with a client whose address is let in, is turned away, or makes the test throw.
abbrev pub decided : ℤ → Bytes → Option Bool → Accepted × List SystemCall
decided sid ipaddr none = (threw, [])
decided sid ipaddr (some true) = (connection (socket_of sid none (some ipaddr)), [])
decided sid ipaddr (some false) = (turned_away, close_descriptor sid ∷ [])

accept_loop-errors :
    (errors : List Arrival) (a : Arrival) (later : List Arrival)
    → All IsError errors
    → is_socket_error a.sid ≡ false
    → accept_loop (errors ++ a ∷ later) ≡ some (a, later)
unfolding accept_loop
accept_loop-errors [] a later h e = rw e
accept_loop-errors (x ∷ errors) a later h e = rw h.0 (accept_loop-errors errors a later h.1 e)

accept_loop-none : (errors : List Arrival) → All IsError errors → accept_loop errors ≡ none
unfolding accept_loop
accept_loop-none [] h = refl
accept_loop-none (x ∷ errors) h = rw h.0 (accept_loop-none errors h.1)

admit-decided :
    (opened : ℤ) (s : PlainSocket) (a : Arrival) (ok : Option Bool)
    → is_zero a.sid ≡ false
    → accepts a.ipaddr s.whitelist s.blacklist ≡ ok
    → admit opened s a ≡ decided a.sid a.ipaddr ok
unfolding admit
admit-decided opened s a none z e = rw (e, admit) refl
admit-decided opened s a (some true) z e = rw (e, admit) (rw z refl)
admit-decided opened s a (some false) z e = rw (e, admit) refl

-- While `::accept` fails, as it does each time that the timeout strikes, `accept` goes on, and with
-- nothing but failures it never returns. The first descriptor that is not 0 becomes a socket for the
-- client's address if the lists let it in, and is closed, and nothing else, if they turn it away.
pub accept_socket-decided :
    (opened : ℤ) (s : PlainSocket) (errors : List Arrival) (a : Arrival) (later : List Arrival)
    → All IsError errors
    → is_socket_error a.sid ≡ false
    → is_zero a.sid ≡ false
    → (accept_socket opened s errors ≡ none)
      × (accept_socket opened s (errors ++ a ∷ later)
          ≡ some (decided a.sid a.ipaddr (accepts a.ipaddr s.whitelist s.blacklist), later))
unfolding accept_socket
accept_socket-decided opened s errors a later h e z = (
  rw (accept_loop-none errors h, accept_socket) refl,
  rw (accept_loop-errors errors a later h e, accept_socket)
      (ap (λ d. some (d, later)) (admit-decided opened s a _ z refl)),
)

-- A client that gets descriptor 0 and is let in is left: the constructor takes 0 for no descriptor,
-- opens another socket, and `accept` gives that one, which no client is connected to.
pub accept_socket_zero :
    (opened : ℤ) (s : PlainSocket) (ipaddr : Bytes) (later : List Arrival)
    → accepts ipaddr s.whitelist s.blacklist ≡ some true
    → accept_socket opened s (record { sid = pos 0; ipaddr = ipaddr } ∷ later)
      ≡ some (
        (
          connection (socket_of opened (some (opened_ready opened)) (some ipaddr)),
          first_options opened,
        ),
        later,
      )
unfolding accept_socket
accept_socket_zero opened s ipaddr later e = rw (e, admit) refl
