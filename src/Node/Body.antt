-- ===== src/Node/Body.antt =====
-- `CNode::readBody`.
pub mod Total
use solusek.Base.{
  ℕ, zero, suc, ◌+◌, ◌%◌, Bool, true, false, List, [], ◌∷◌, ◌++◌, Option, none, some, ltb, Bytes,
  c_str, codes, length, u32_mod, u32_of_int,
}
use solusek.Model.{VarVal}
use solusek.Decimal.{atoi}
use solusek.Socket.{Input, read_buffer}
use solusek.Node.Header.{get_header}

-- `SOLUSEK_DEFAULT_CHUNK_SIZE`
abbrev pub default_chunk_size : ℕ
default_chunk_size = 1024

pub data BodyRead : Type 0 where
  closed : BodyRead
  no_fuel : BodyRead
  body : Bytes → Input → BodyRead

-- The `for` loop: `n` is an `unsigned int`, and `Body += buf` stops at a NUL in the chunk.
unfoldable pub body_loop : ℕ → ℕ → ℕ → Bytes → Input → BodyRead
body_loop zero n len acc i = no_fuel
body_loop (suc fuel) n len acc i = elim (ltb n len) [
  | false ↦ body acc i
  | true ↦ elim (read_buffer default_chunk_size i) [
    | none ↦ closed
    | some (buf, i') ↦ body_loop fuel ((n + length buf) % u32_mod) len (acc ++ c_str buf) i'
  ]
]

read_length : ℕ → Option Bytes → Input → BodyRead
unfolding body_loop
read_length fuel none i = body [] i
read_length fuel (some v) i = body_loop fuel 0 (u32_of_int (atoi (c_str v))) [] i

unfoldable pub read_body : ℕ → List VarVal → Input → BodyRead
unfolding read_length
read_body fuel headers i = read_length fuel (get_header headers (codes "content-length")) i
