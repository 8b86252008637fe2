-- ===== src/Socket.antt =====
-- src/handlers/CNetHandler_linux.cpp: `readBuffer` and `writeBuffer` of a plain socket that throws.
-- What the peer and the kernel do is data: `pending` is what has arrived and is not yet read,
-- `arrivals` is what later calls of `recv` find, and behind the last of them the peer has closed
-- or the timeout strikes; `sends` has for each later call of `send` how many bytes it takes at most,
-- 0 for a call that fails, and behind the last of them the connection is gone.
pub mod Stream
pub mod Access
pub mod Tls
pub mod Plain
use solusek.Base.{
  ℕ, zero, suc, ◌+◌, ◌-◌, ◌%◌, ◌<◌, ◌≤◌, List, [], ◌∷◌, ◌++◌, Option, none, some, Bytes, take, drop,
  concat, length, is_empty, ltb, if◌then◌else◌, u32_mod,
}

pub record Input : Type 0 where
  pub pending : Bytes
  pub arrivals : List Bytes

-- What the peer will have sent in all.
abbrev pub stream : Input → Bytes
stream i = i.pending ++ concat i.arrivals

-- `::recv` for at most `n` bytes: what it gives and what is left; `none` if it returns less than 1.
unfoldable pub recv : ℕ → Bytes → List Bytes → Option (Bytes × Input)
recv n [] [] = none
recv n [] (s ∷ ss) = recv n s ss
recv n (b ∷ bs) ss = some (take n (b ∷ bs), record { pending = drop n (b ∷ bs); arrivals = ss })

-- `readBuffer(buf, n)` under `ThrowExceptions`; `none` is the thrown `int`.
unfoldable pub read_buffer : ℕ → Input → Option (Bytes × Input)
unfolding recv
read_buffer n i = recv n i.pending i.arrivals

pub record Output : Type 0 where
  pub sent : Bytes
  pub sends : List ℕ

-- A write returns or throws its `int`; either way the bytes that went out are out.
pub data Written : Type 0 where
  wrote : Output → Written
  threw : Output → Written

abbrev pub output : Written → Output
output (wrote o) = o
output (threw o) = o

-- Runs `k` if nothing was thrown.
infixl 5 ◌then_write◌
abbrev pub ◌then_write◌ : Written → (Output → Written) → Written
wrote o then_write k = k o
threw o then_write k = threw o

-- A `size_t` given for an `int` parameter that is then given for a `size_t`: from 2^31 on the `int`
-- is negative or has lost the high bits. (`SSL_write` fails for a negative one.)
abbrev pub size_of_int : ℕ → ℕ
size_of_int n =
    let k = n % u32_mod in if ltb k 2147483648 then k else k + (18446744073709551616 - u32_mod)

-- `::send` for `len` bytes: it may take fewer than it is asked to, and returns less than 1 if it fails
-- or has nothing to take.
unfoldable pub send : List ℕ → ℕ → Bytes → Output → Written
send [] len buf o = threw o
send (n ∷ ns) len buf o =
    let out = take n (take len buf) in
    if is_empty out
    then threw (record o { sends = ns })
    else wrote (record { sent = o.sent ++ out; sends = ns })

-- `writeBuffer(buf, len)` under `ThrowExceptions`, with the size of `buf` as `len`: a result below 1
-- is thrown, and any other is a success.
unfoldable pub write_buffer : Bytes → Output → Written
unfolding send
write_buffer buf o = send o.sends (size_of_int (length buf)) buf o

-- The sends to come take each of these pieces whole, and its size is an `int`.
abbrev pub Takes : List Bytes → List ℕ → Type 0
Takes [] ns = 0 ≤ 0
Takes (p ∷ ps) [] = 1 ≤ 0
Takes (p ∷ ps) (n ∷ ns) = (length p < 2147483648) × (length p ≤ n) × Takes ps ns

-- A sequence of writes, in order.
unfoldable pub write_all : List Bytes → Output → Written
write_all [] o = wrote o
write_all (p ∷ ps) o = write_buffer p o then_write write_all ps

-- A connection on which each of the next `n` sends takes all that an `int` can ask it for.
abbrev pub healthy : ℕ → List ℕ
healthy zero = []
healthy (suc n) = 2147483647 ∷ healthy n
