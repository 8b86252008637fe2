-- ===== src/Socket/Plain/Descriptors.antt =====
-- The descriptors of the connections, while threads close and delete their sockets. `CNode::run` calls
-- `Socket->close()` and then deletes the socket, whose destructor closes the same number again.
pub mod Kept
pub mod Reused
use solusek.Base.{
  put, ℕ, Bool, true, false, List, [], ◌∷◌, ◌≡◌, ◌≢◌, ◌⊎◌, refl, sym, ap, ◌∙◌, subst, Option, none,
  some, if◌then◌else◌, ◌==◌, ==_iff, ==_refl, ==_ne, Bool-cases, inl, inr, ℤ, pos, negsuc, arith,
  some_inj,
}
use solusek.Socket.Plain.{
  SystemCall, set_reuse_address, set_keep_alive, set_send_timeout, set_receive_timeout, shut_down,
  close_descriptor, PlainSocket, close_socket, destroy_socket,
}

-- What a descriptor stands for: a connection, and whether it has been shut down.
pub record Line : Type 0 where
  pub conn : ℕ
  pub shut : Bool

abbrev pub Table : Type 0
Table = ℕ → Option Line

abbrev pub shut_line : Option Line → Option Line
shut_line none = none
shut_line (some l) = some (record l { shut = true })

-- What the calls do to the connections: `shutdown` cuts the one under the number, `close` frees it.
unfoldable pub apply_call : SystemCall → Table → Table
apply_call (shut_down (pos d)) t = put d (shut_line (t d)) t
apply_call (close_descriptor (pos d)) t = put d none t
apply_call _ t = t

unfoldable pub apply_calls : List SystemCall → Table → Table
unfolding apply_call
apply_calls [] t = t
apply_calls (c ∷ cs) t = apply_calls cs (apply_call c t)

-- A thread's socket, its connection, and whether the thread has closed it.
pub record Holder : Type 0 where
  pub socket : PlainSocket
  pub conn : ℕ
  pub closed : Bool

-- The threads by a number of their own.
pub record Sockets : Type 0 where
  pub table : Table
  pub threads : ℕ → Option Holder

-- What may happen. The kernel gives any number that is free and that `Allowed` lets it give.
pub data SocketStep (Allowed : ℕ → (ℕ → Option Holder) → Type 0) : Sockets → Sockets → Type 0 where
  accept :
      (s : Sockets) (k d conn : ℕ) (socket : PlainSocket)
      → s.threads k ≡ none
      → s.table d ≡ none
      → Allowed d s.threads
      → socket.sid ≡ pos d
      → SocketStep Allowed s (record {
        table = put d (some (record { conn = conn; shut = false })) s.table;
        threads = put k (some (record { socket = socket; conn = conn; closed = false })) s.threads;
      })
  close :
      (s : Sockets) (k : ℕ) (h : Holder)
      → s.threads k ≡ some h
      → h.closed ≡ false
      → SocketStep Allowed s (record {
        table = apply_calls (close_socket h.socket) s.table;
        threads = put k (some (record h { closed = true })) s.threads;
      })
  delete :
      (s : Sockets) (k : ℕ) (h : Holder)
      → s.threads k ≡ some h
      → h.closed ≡ true
      → SocketStep Allowed s (record {
        table = apply_calls (destroy_socket h.socket) s.table;
        threads = put k none s.threads;
      })

pub data SocketReach (Allowed : ℕ → (ℕ → Option Holder) → Type 0) (s : Sockets)
    : Sockets → Type 0 where
  here : SocketReach Allowed s s
  next :
      {t u : Sockets} → SocketReach Allowed s t → SocketStep Allowed t u → SocketReach Allowed s u

abbrev pub no_sockets : Sockets
no_sockets = record { table = λ d. none; threads = λ k. none }

-- As POSIX has it: any number that is not open.
abbrev pub Any : ℕ → (ℕ → Option Holder) → Type 0
Any d threads = Unit

-- Only a number that no thread has still to delete.
abbrev pub Unheld : ℕ → (ℕ → Option Holder) → Type 0
Unheld d threads = (k : ℕ) (h : Holder) → threads k ≡ some h → h.socket.sid ≢ pos d
