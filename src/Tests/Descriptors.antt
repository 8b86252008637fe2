-- ===== src/Tests/Descriptors.antt =====
-- Plain sockets.
use solusek.Base.{List, put, true, false, [], ◌∷◌, ◌++◌, ◌≡◌, refl, none, some, codes, pos, negsuc}
use solusek.Socket.Access.{one_address}
use solusek.Socket.Plain.{
  SystemCall, set_receive_timeout, set_send_timeout, shut_down, close_descriptor, Accepted,
  PlainSocket, new_plain_socket, Arrival, accept_socket, add_blacklist, socket_of,
}
use solusek.Server.Turn.{main_socket, turn, served, stopped, main_socket-serves}
use solusek.Socket.Plain.Descriptors.{
  Sockets, accept, SocketReach, here, next, no_sockets, Unheld, Any,
}
use solusek.Socket.Plain.Descriptors.Kept.{IsServed, SocketReach-IsServed}
use solusek.Socket.Plain.Descriptors.Reused.{delete_cuts}

abbrev listener : PlainSocket
unfolding new_plain_socket add_blacklist
listener = add_blacklist (one_address (codes "10.0.0.9")) (new_plain_socket (pos 3) (pos 0) none).0

abbrev failed : Arrival
failed = record { sid = negsuc 0; ipaddr = [] }

abbrev client : Arrival
client = record { sid = pos 5; ipaddr = codes "10.0.0.8" }

-- A call of `socket` that fails leaves a socket that says it is ready.
failed_ready : (new_plain_socket (negsuc 0) (pos 0) none).0.ready ≡ some true
unfolding new_plain_socket
failed_ready = refl

abbrev client_socket : PlainSocket
client_socket = socket_of (pos 5) none (some (codes "10.0.0.8"))

abbrev one_thread : Sockets
one_thread = record {
  table = put 5 (some (record { conn = 1; shut = false })) no_sockets.table;
  threads =
      put 0 (some (record { socket = client_socket; conn = 1; closed = false })) no_sockets.threads;
}

one_thread-SocketReach : SocketReach Unheld no_sockets one_thread
one_thread-SocketReach =
    next here (accept no_sockets 0 5 1 client_socket refl refl (λ k h e. cc) refl)

SocketReach-IsServed_example : IsServed one_thread
SocketReach-IsServed_example = SocketReach-IsServed one_thread one_thread-SocketReach

delete_cuts_example :
    (t : Sockets) × SocketReach Any one_thread t
    × (t.threads 1 ≡ some (record { socket = client_socket; conn = 2; closed = false }))
    × (t.table 5 ≡ none)
delete_cuts_example =
    delete_cuts one_thread 0 1 5 2 (record { socket = client_socket; conn = 1; closed = false })
      client_socket refl refl refl refl refl

main_socket-serves_example :
    (got : Accepted) × (calls : List SystemCall) × (accept_socket
        (pos 4)
        (main_socket (pos 3)).0
        ((failed ∷ []) ++ client ∷ [])
      ≡ some ((got, calls), []))
    × (turn false got
        ≡ served
            (record (socket_of (pos 5) none (some (codes "10.0.0.8"))) {
              throw_exceptions = true;
              timeout = pos 5;
            })
            (set_receive_timeout (pos 5) (pos 5) ∷ set_send_timeout (pos 5) (pos 5) ∷ []))
    × (turn true got
        ≡ stopped (
            shut_down (pos 5)
            ∷ close_descriptor (pos 5)
            ∷ shut_down (pos 5)
            ∷ close_descriptor (pos 5)
            ∷ []))
main_socket-serves_example =
    main_socket-serves (pos 3) (pos 4) (failed ∷ []) client [] (refl, tt) refl refl
