-- ===== src/Server/Turn.antt =====
-- src/server/CServer.cpp: a turn of the accept loop of `run`, from the main socket to the socket of a node
-- (the constructor of `CNode`), and src/handlers/CThreadHandler_linux.cpp, which makes the node's
-- thread.
use solusek.Base.{
  ℕ, Bool, true, false, List, [], ◌∷◌, ◌++◌, ◌≡◌, refl, ap, ◌∙◌, Option, none, some, if◌then◌else◌,
  Bytes, codes, ℤ, pos, negsuc, All,
}
use solusek.Socket.Plain.{
  SystemCall, set_receive_timeout, set_send_timeout, shut_down, close_descriptor, PlainSocket,
  is_zero, socket_of, new_plain_socket, set_socket_timeout, set_throw_exceptions, connect_socket,
  close_socket, destroy_socket, Arrival, is_socket_error, Accepted, connection, turned_away, threw,
  accept_socket,
}
use solusek.Socket.Access.{accepts, is_listed}
use solusek.Socket.Plain.Listening.{IsError, decided, accept_socket-decided}

-- `MainSocket` behind `setTimeout(5)`; `opened` is what `::socket` returns.
unfoldable pub main_socket : ℤ → PlainSocket × List SystemCall
unfolding new_plain_socket set_socket_timeout
main_socket opened =
    let (s, calls) = new_plain_socket opened (pos 0) none in
    let (s', calls') = set_socket_timeout (pos 5) s in (s', calls ++ calls')

-- What the constructor of `CNode` does to its socket.
unfoldable pub node_socket : PlainSocket → PlainSocket × List SystemCall
unfolding set_throw_exceptions set_socket_timeout
node_socket s = set_socket_timeout (pos 5) (set_throw_exceptions true s)

-- What a turn comes to behind `accept`.
pub data Turn : Type 0 where
  -- A thread is asked for, which runs a node on this socket.
  served : PlainSocket → List SystemCall → Turn
  -- The loop is left, and the socket closed and deleted.
  stopped : List SystemCall → Turn
  -- A null pointer is used: by `socket->close()`, or by the node.
  null_used : Turn
  -- An exception leaves `run`.
  escaped : Turn

unfoldable pub turn : Bool → Accepted → Turn
unfolding node_socket close_socket destroy_socket
turn stop_signal threw = escaped
turn stop_signal turned_away = null_used
turn true (connection s) = stopped (close_socket s ++ destroy_socket s)
turn false (connection s) = served (node_socket s).0 (node_socket s).1

-- `stop` behind `StopSignal = true`: the calls for the socket that wakes `accept`, and whether it was
-- connected.
unfoldable pub wake_accept : ℤ → (Bytes → Option ℕ) → (ℤ → ℕ → ℕ → ℤ) → ℤ → List SystemCall × Bool
unfolding new_plain_socket connect_socket close_socket destroy_socket
wake_accept opened resolve kernel_connect listen_port =
    let (s, calls) = new_plain_socket opened (pos 0) none in
    (
      calls ++ (close_socket s ++ destroy_socket s),
      connect_socket resolve kernel_connect s (codes "127.0.0.1") listen_port,
    )

-- `CThreadHandler::create`.
pub data Created : Type 0 where
  -- With what `create` returns, and a process number that it stores.
  parent : ℤ → Option ℤ → Created
  -- The forked process: the function is called, and the process ends.
  child : Created

-- `pid` is what `fork` returns, `code` what `pthread_create` returns; both kinds of thread are asked
-- for the same way.
unfoldable pub create_thread : Bool → ℤ → ℤ → Created
create_thread forker (negsuc n) code = if forker then parent (negsuc 0) none else parent code none
create_thread forker (pos n) code =
    if forker
    then (if is_zero (pos n) then child else parent (pos n) (some (pos n)))
    else parent code none

-- The main socket's lists are empty, and nothing puts anything into them.
accepts_all : (addr : Bytes) → accepts addr [] [] ≡ some true
unfolding accepts is_listed
accepts_all addr = refl

-- Whatever failures `::accept` reports first, the first client with a descriptor that is not 0 is served:
-- `run` gives its descriptor and its address to a node, whose socket throws and times out after five
-- seconds; or, if the signal to stop is set by then, closes the descriptor, twice, and leaves the loop.
pub main_socket-serves :
    (opened opened' : ℤ) (errors : List Arrival) (a : Arrival) (later : List Arrival)
    → All IsError errors
    → is_socket_error a.sid ≡ false
    → is_zero a.sid ≡ false
    → (got : Accepted) × (calls : List SystemCall) × (accept_socket opened'
          (main_socket opened).0
          (errors ++ a ∷ later)
        ≡ some ((got, calls), later))
      × (turn false got
          ≡ served
              (record (socket_of a.sid none (some a.ipaddr)) {
                throw_exceptions = true;
                timeout = pos 5;
              })
              (set_receive_timeout a.sid (pos 5) ∷ set_send_timeout a.sid (pos 5) ∷ []))
      × (turn true got
          ≡ stopped (
              shut_down a.sid
              ∷ close_descriptor a.sid
              ∷ shut_down a.sid
              ∷ close_descriptor a.sid
              ∷ []))
unfolding main_socket turn
main_socket-serves opened opened' errors a later h e z =
    let s = (main_socket opened).0 in
    (
      connection (socket_of a.sid none (some a.ipaddr)),
      [],
      (accept_socket-decided opened' s errors a later h e z).1
          ∙ ap (λ d. some (decided a.sid a.ipaddr d, later)) (accepts_all a.ipaddr),
      refl,
      refl,
    )
