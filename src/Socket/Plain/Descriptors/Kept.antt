-- ===== src/Socket/Plain/Descriptors/Kept.antt =====
-- Threads keep their connections while no number is given twice.
use solusek.Base.{
  put, put-cases, put_same, put_other, ℕ, true, false, [], ◌∷◌, ◌≡◌, ◌≢◌, refl, sym, ap, ◌∙◌, subst,
  Option, none, some, inl, inr, ℤ, pos, negsuc, some_inj,
}
use solusek.Socket.Plain.{shut_down, close_descriptor, PlainSocket, close_socket, destroy_socket}
use solusek.Socket.Plain.Descriptors.{
  Line, Table, shut_line, apply_call, apply_calls, Holder, Sockets, SocketStep, accept, close,
  delete, SocketReach, here, next, no_sockets, Unheld,
}

-- Each thread that has not closed its socket has its connection, whole, under its descriptor.
pub record IsServed (s : Sockets) : Type 0 where
  pub open_line :
      (k : ℕ) (h : Holder)
      → s.threads k ≡ some h
      → h.closed ≡ false
      → (d : ℕ) × (h.socket.sid ≡ pos d)
        × (s.table d ≡ some (record { conn = h.conn; shut = false }))
  pub distinct :
      (j k : ℕ) (g h : Holder)
      → s.threads j ≡ some g
      → s.threads k ≡ some h
      → g.socket.sid ≡ h.socket.sid
      → j ≡ k

-- Closing a socket does nothing to another number.
calls-elsewhere :
    (sid : ℤ) (t : Table) (e : ℕ)
    → sid ≢ pos e
    → apply_calls (shut_down sid ∷ close_descriptor sid ∷ []) t e ≡ t e
unfolding apply_calls apply_call
calls-elsewhere (negsuc n) t e ne = refl
calls-elsewhere (pos d) t e ne =
    let other : e ≢ d = λ same. ne (ap pos (sym same)) in
    put_other d none (put d (shut_line (t d)) t) e other ∙ put_other d (shut_line (t d)) t e other

pub no_sockets-IsServed : IsServed no_sockets
no_sockets-IsServed = record { open_line = λ k h e. cc; distinct = λ j k g h e. cc }

-- Another thread's line is not touched by closing this thread's socket.
line-kept :
    (s : Sockets) (j k : ℕ) (g h : Holder)
    → IsServed s
    → s.threads k ≡ some h
    → s.threads j ≡ some g
    → j ≢ k
    → g.closed ≡ false
    → (d : ℕ) × (g.socket.sid ≡ pos d)
      × (apply_calls (close_socket h.socket) s.table d
          ≡ some (record { conn = g.conn; shut = false }))
unfolding close_socket
line-kept s j k g h v at there other ne =
    let (d, sid, line) = v.open_line j g there ne in
    (
      d,
      sid,
      calls-elsewhere h.socket.sid s.table d
            (λ same. other (v.distinct j k g h there at (sid ∙ sym same)))
          ∙ line,
    )

-- A holder behind a close has the socket that it had before.
same_socket :
    (threads : ℕ → Option Holder) (k j : ℕ) (h g : Holder)
    → threads k ≡ some h
    → put k (some (record h { closed = true })) threads j ≡ some g
    → (f : Holder) × (threads j ≡ some f) × (f.socket.sid ≡ g.socket.sid)
same_socket threads k j h g at e =
    elim (put-cases k (some (record h { closed = true })) threads j e) [
      | inl (same, new) ↦
          (h, ap threads same ∙ at, ap (λ (x : Holder). x.socket.sid) (some_inj new))
      | inr (other, old) ↦ (g, old, refl)
    ]

module _ (s : Sockets) (k d conn : ℕ) (socket : PlainSocket) (v : IsServed s) where
  abbrev newcomer : Holder
  newcomer = record { socket = socket; conn = conn; closed = false }

  abbrev new_line : Option Line
  new_line = some (record { conn = conn; shut = false })

  accept-open_line :
      s.table d ≡ none
      → socket.sid ≡ pos d
      → (j : ℕ) (h : Holder) → put k (some newcomer) s.threads j ≡ some h
      → h.closed ≡ false
      → (e : ℕ) × (h.socket.sid ≡ pos e)
        × (put d new_line s.table e ≡ some (record { conn = h.conn; shut = false }))
  accept-open_line gap sid j h e ne = elim (put-cases k (some newcomer) s.threads j e) [
    | inl (same, new) ↦
        subst
          (λ (x : Holder).
            (e : ℕ) × (x.socket.sid ≡ pos e)
            × (put d new_line s.table e ≡ some (record { conn = x.conn; shut = false })))
          (some_inj new) (d, sid, put_same d new_line s.table)
    | inr (other, old) ↦
        let (e', at, line) = v.open_line j h old ne in
        (e', at, put_other d new_line s.table e' (λ same. absurd (cc)) ∙ line)
  ]

  accept-distinct :
      Unheld d s.threads
      → socket.sid ≡ pos d
      → (i j : ℕ) (g h : Holder) → put k (some newcomer) s.threads i ≡ some g
      → put k (some newcomer) s.threads j ≡ some h
      → g.socket.sid ≡ h.socket.sid
      → i ≡ j
  accept-distinct unheld sid i j g h eg eh same =
      elim (put-cases k (some newcomer) s.threads i eg) [
        | inl (a, n) ↦ elim (put-cases k (some newcomer) s.threads j eh) [
          | inl (b, m) ↦ a ∙ sym b
          | inr (b, old) ↦ absurd (
              unheld j h old
                (sym same ∙ ap (λ (x : Holder). x.socket.sid) (sym (some_inj n)) ∙ sid))
        ]
        | inr (a, old) ↦ elim (put-cases k (some newcomer) s.threads j eh) [
          | inl (b, m) ↦
              absurd
                (unheld i g old (same ∙ ap (λ (x : Holder). x.socket.sid) (sym (some_inj m)) ∙ sid))
          | inr (b, old') ↦ v.distinct i j g h old old' same
        ]
      ]

SocketStep-IsServed : {s t : Sockets} → SocketStep Unheld s t → IsServed s → IsServed t
unfolding destroy_socket
SocketStep-IsServed (accept s k d conn socket free gap unheld sid) v = record {
  open_line = accept-open_line s k d conn socket v gap sid;
  distinct = accept-distinct s k d conn socket v unheld sid;
}
SocketStep-IsServed (close s k h at _) v = record {
  open_line = λ j g e ne. elim (put-cases k (some (record h { closed = true })) s.threads j e) [
    | inl (same, new) ↦ absurd (cc)
    | inr (other, old) ↦ line-kept s j k g h v at old other ne
  ];
  distinct = λ i j g g' e e' same.
      let (f, was, sid) = same_socket s.threads k i h g at e in
      let (f', was', sid') = same_socket s.threads k j h g' at e' in
      v.distinct i j f f' was was' (sid ∙ same ∙ sym sid');
}
SocketStep-IsServed (delete s k h at _) v = record {
  open_line = λ j g e ne. elim (put-cases k none s.threads j e) [
    | inl (same, new) ↦ absurd (cc)
    | inr (other, old) ↦ line-kept s j k g h v at old other ne
  ];
  distinct = λ i j g g' e e' same.
      v.distinct i j g g' (deleted s.threads k i g e) (deleted s.threads k j g' e') same;
}
  where
    deleted :
        (threads : ℕ → Option Holder) (k j : ℕ) (g : Holder)
        → put k none threads j ≡ some g
        → threads j ≡ some g
    deleted threads k j g e = elim (put-cases k none threads j e) [
      | inl (same, new) ↦ absurd (cc)
      | inr (other, old) ↦ old
    ]

-- As long as the kernel gives no descriptor that a thread has closed and still has to delete, every
-- thread that has not closed its socket has its own connection under its descriptor, and nobody has
-- shut it down, whatever the order in which threads accept, close and delete.
pub SocketReach-IsServed : (s : Sockets) → SocketReach Unheld no_sockets s → IsServed s
SocketReach-IsServed _ here = no_sockets-IsServed
SocketReach-IsServed _ (next {t} r step) = SocketStep-IsServed step (SocketReach-IsServed t r)
