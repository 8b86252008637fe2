-- ===== src/Socket/Plain/Descriptors/Reused.antt =====
-- A number that is given while the thread that closed it has still to delete its socket.
use solusek.Base.{
  put, put_same, put_other, ℕ, true, false, [], ◌∷◌, ◌≡◌, ◌≢◌, refl, sym, ◌∙◌, none, some, ℤ, pos,
  negsuc,
}
use solusek.Socket.Plain.{shut_down, close_descriptor, PlainSocket, close_socket, destroy_socket}
use solusek.Socket.Plain.Descriptors.{
  Table, shut_line, apply_call, apply_calls, Holder, Sockets, accept, close, delete, SocketReach,
  here, next, Any,
}

-- A socket closed once and again, by `close` and by the destructor, frees its number each time.
calls-at :
    (sid : ℤ) (t : Table) (d : ℕ)
    → sid ≡ pos d
    → apply_calls (shut_down sid ∷ close_descriptor sid ∷ []) t d ≡ none
unfolding apply_calls apply_call
calls-at (negsuc n) t d e = absurd (cc)
calls-at (pos n) t d e = rw (pos_inj e) (put_same d none (put d (shut_line (t d)) t))
  where
    pos_inj : {m n : ℕ} → pos m ≡ pos n → m ≡ n
    pos_inj e = cc

-- Of any thread that has yet to close its socket: it can close it, another thread can be given the
-- number for a new connection, and the first one's destructor then closes that connection too, while
-- the other thread has it in use.
pub delete_cuts :
    (s : Sockets) (k j d conn : ℕ) (h : Holder) (socket : PlainSocket)
    → s.threads k ≡ some h
    → h.closed ≡ false
    → h.socket.sid ≡ pos d
    → s.threads j ≡ none
    → socket.sid ≡ pos d
    → (t : Sockets) × SocketReach Any s t
      × (t.threads j ≡ some (record { socket = socket; conn = conn; closed = false }))
      × (t.table d ≡ none)
unfolding close_socket destroy_socket
delete_cuts s k j d conn h socket at open_ sid free sid' =
    let other : j ≢ k = λ same. absurd (cc) in
    let newcomer : Holder = record { socket = socket; conn = conn; closed = false } in
    let closed : Holder = record h { closed = true } in
    let calls = shut_down h.socket.sid ∷ close_descriptor h.socket.sid ∷ [] in
    let threads1 = put k (some closed) s.threads in
    let table1 = apply_calls calls s.table in
    let threads2 = put j (some newcomer) threads1 in
    let table2 = put d (some (record { conn = conn; shut = false })) table1 in
    let s1 : Sockets = record { table = table1; threads = threads1 } in
    let s2 : Sockets = record { table = table2; threads = threads2 } in
    let at2 =
      put_other j (some newcomer) threads1 k (λ same. other (sym same))
      ∙ put_same k (some closed) s.threads in
    (
      record { table = apply_calls calls table2; threads = put k none threads2 },
      next
          (next (next here (close s k h at open_)) (
            accept s1 j d conn socket (put_other k (some closed) s.threads j other ∙ free)
              (calls-at h.socket.sid s.table d sid) tt sid'))
          (delete s2 k closed at2 refl),
      put_other k none threads2 j other ∙ put_same j (some newcomer) threads1,
      calls-at h.socket.sid table2 d sid,
    )
