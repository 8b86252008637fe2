-- ===== src/Client/Reply.antt =====
-- `CClient::runRequest`: the response as it is read.
pub mod Lines
pub mod Counted
pub mod Chunks
pub mod FromServer
pub mod Total
use mathlib.Core.Option
use solusek.Base.{
  ℕ, zero, suc, ◌+◌, ◌-◌, ◌*◌, ◌%◌, ◌^◌, Bool, true, false, not, ◌&&◌, ◌||◌, List, [], ◌∷◌, ◌++◌,
  Option, none, some, ltb, leb, ◌==◌, if◌then◌else◌, Bytes, codes, c_str, find, find_str, is_empty,
  u32_mod, u32_of_int, ℤ, pos, negsuc,
}
use solusek.Decimal.{atoi}
use solusek.Text.{trim, strtolower, ltrim}
use solusek.StringMap.{StringMap, map_set, map_at}
use solusek.Socket.{Input, read_buffer}
use solusek.Node.Header.{take_upto, drop_past_pos}

-- `code` and the variables of the header loop.
pub record Reading : Type 0 where
  pub code : ℤ
  pub headers : StringMap
  pub line : Bytes
  pub ex : ℕ

abbrev pub at_start : Reading
at_start = record { code = pos 0; headers = []; line = []; ex = 0 }

-- The word behind the first blank.
unfoldable pub status_code : Bytes → ℤ
status_code line =
    let scode = drop_past_pos (find b' ' line) line in
    atoi (c_str (take_upto (find b' ' scode) scode))

-- `headers[var] = val`; a line with no colon is its own value.
unfoldable pub keep_header : Bytes → StringMap → StringMap
unfolding map_set
keep_header line headers =
    map_set (trim (strtolower (take_upto (find b':' line) line)))
      (trim (drop_past_pos (find b':' line) line)) headers

-- A line at its end.
unfoldable pub take_line : Reading → Reading
unfolding status_code keep_header
take_line st = elim (find_str (codes "HTTP/1.1") st.line) [
  | some _ ↦ record { code = status_code st.line; headers = st.headers; line = []; ex = suc st.ex }
  | none ↦ record {
    code = st.code;
    headers = keep_header st.line st.headers;
    line = [];
    ex = suc st.ex;
  }
]

pub data Round : Type 0 where
  go_on : Reading → Round
  break : Reading → Round

-- One round, for the byte read: `line += retBuf` adds nothing for a NUL.
unfoldable pub reply_round : Reading → ℕ → Round
unfolding take_line
reply_round st b =
    if b == b'\r'
    then go_on st
    else if b == b'\n'
    then (let st' = take_line st in if st'.ex == 2 then break st' else go_on st')
    else if b == 0
    then go_on (record st { ex = 0 })
    else go_on (record st { line = st.line ++ b ∷ []; ex = 0 })

pub data Loop : Type 0 where
  thrown : Reading → Loop
  out_of_fuel : Loop
  done : Reading → Input → Loop

unfoldable pub reply_loop : ℕ → Reading → Input → Loop
unfolding reply_round
reply_loop zero st i = out_of_fuel
reply_loop (suc fuel) st i = elim (read_buffer 1 i) [
  | none ↦ thrown st
  | some (buf, i') ↦ elim buf [
    | [] ↦ thrown st
    | b ∷ _ ↦ elim (reply_round st b) [
      | go_on st' ↦ reply_loop fuel st' i'
      | break st' ↦ done st' i'
    ]
  ]
]

-- What a loop that appends to `resp` leaves: it ran to its end, or a read threw.
pub data Got : Type 0 where
  whole : Bytes → Input → Got
  cut : Bytes → Got

-- `for (unsigned int n = 0; n < count; n++)`, a byte in each round.
unfoldable pub read_bytes : ℕ → Bytes → Input → Got
read_bytes zero resp i = whole resp i
read_bytes (suc count) resp i = elim (read_buffer 1 i) [
  | none ↦ cut resp
  | some (buf, i') ↦ read_bytes count (resp ++ buf) i'
]

-- The digit that `%x` reads for a byte.
abbrev pub hex_digit : ℕ → Option ℕ
hex_digit c =
    if leb b'0' c && leb c b'9'
    then some (c - b'0')
    else if leb b'a' c && leb c b'f'
    then some (c - 87)
    else if leb b'A' c && leb c b'F'
    then some (c - 55)
    else none

-- The digits up to the first byte that is none, behind the value `n`.
unfoldable pub scan_hex : ℕ → Bytes → ℕ
scan_hex n [] = n
scan_hex n (c ∷ s) = elim (hex_digit c) [ none ↦ n | some d ↦ scan_hex (n * 16 + d) s ]

abbrev pub starts_hex : Bytes → Bool
starts_hex [] = false
starts_hex (c ∷ s) = elim (hex_digit c) [ none ↦ false | some d ↦ true ]

-- Behind a "0x" or "0X" in front of a digit.
abbrev pub past_prefix : Bytes → Bytes
past_prefix (z ∷ x ∷ s) =
    if (z == b'0') && ((x == b'x' || x == b'X') && starts_hex s) then s else z ∷ x ∷ s
past_prefix s = s

-- The `unsigned long` of the digits, as an `unsigned int`.
abbrev pub hex_value : Bool → ℕ → ℕ
hex_value negative n =
    if ltb n (2 ^ 64)
    then (if negative then (u32_mod - n % u32_mod) % u32_mod else n % u32_mod)
    else u32_mod - 1

unfoldable pub scan_unsigned : ℕ → Bool → Bytes → ℕ
unfolding scan_hex
scan_unsigned old negative s =
    if starts_hex s then hex_value negative (scan_hex 0 (past_prefix s)) else old

unfoldable pub scan_signed : ℕ → Bytes → ℕ
unfolding scan_unsigned
scan_signed old [] = old
scan_signed old (c ∷ s) =
    if c == b'-'
    then scan_unsigned old true s
    else if c == b'+'
    then scan_unsigned old false s
    else scan_unsigned old false (c ∷ s)

-- `sscanf(acc.c_str(), "%x", &chunkSize)`: with no digit `chunkSize` stays what it was.
unfoldable pub scan_chunk_size : ℕ → Bytes → ℕ
unfolding scan_signed
scan_chunk_size old acc = scan_signed old (ltrim (c_str acc))

-- What the loop that reads the line of a chunk leaves.
pub data SizeLine : Type 0 where
  no_fuel : SizeLine
  ended : SizeLine
  line : Bytes → Input → SizeLine

unfoldable pub size_line : ℕ → ℕ → Bytes → Input → SizeLine
size_line zero prev acc i = no_fuel
size_line (suc fuel) prev acc i = elim (read_buffer 1 i) [
  | none ↦ ended
  | some (buf, i') ↦ elim buf [
    | [] ↦ ended
    | b ∷ _ ↦ elim ((prev == b'\r') && (b == b'\n')) [
      | true ↦ line acc i'
      | false ↦ size_line fuel b (if b == b'\r' then acc else acc ++ b ∷ []) i'
    ]
  ]
]

-- The bytes of a chunk are read; then the two behind it, of which the call may return just one.
unfoldable pub past_chunk : Got → Got
past_chunk (cut resp) = cut resp
past_chunk (whole resp i) = elim (read_buffer 2 i) [
  | none ↦ cut resp
  | some (buf, i') ↦ whole resp i'
]

-- A chunk of the size that its line gave; whatever is thrown ends the chunks, so only `resp` is left.
unfoldable pub one_chunk : (ℕ → Bytes → Input → Option Bytes) → ℕ → Bytes → Input → Option Bytes
unfolding read_bytes past_chunk
one_chunk next size resp i = elim (size == 0) [
  | true ↦ some resp
  | false ↦ elim (past_chunk (read_bytes size resp i)) [
    | cut resp' ↦ some resp'
    | whole resp' i' ↦ next size resp' i'
  ]
]

-- The outer loop over the chunks; `none` is the end of the fuel.
unfoldable pub read_chunks : ℕ → ℕ → Bytes → Input → Option Bytes
unfolding scan_chunk_size size_line one_chunk
read_chunks zero chunk_size resp i = none
read_chunks (suc fuel) chunk_size resp i = elim (size_line (suc fuel) 0 [] i) [
  | no_fuel ↦ none
  | ended ↦ some resp
  | line acc i' ↦ one_chunk (read_chunks fuel) (scan_chunk_size chunk_size acc) resp i'
]

-- What `runRequest` returns.
pub record Reply : Type 0 where
  pub code : ℤ
  pub resp : Bytes
  pub content_type : Bytes
  pub location : Bytes

abbrev pub given_or : Bytes → Bytes → Bytes
given_or other s = if is_empty s then other else s

abbrev pub full_reply : Reading → Bytes → Reply
full_reply st resp = record {
  code = st.code;
  resp = resp;
  content_type = given_or (codes "application/json") (map_at (codes "content-type") st.headers);
  location = map_at (codes "location") st.headers;
}

-- A throw outside the chunks skips the location.
abbrev pub cut_reply : Reading → Bytes → Reply
cut_reply st resp = record (full_reply st resp) { location = [] }

reply_of : Reading → Got → Reply
reply_of st (whole resp i) = full_reply st resp
reply_of st (cut resp) = cut_reply st resp

-- Behind the header.
unfoldable pub read_resp : ℕ → ℕ → Reading → Input → Option Reply
unfolding map_at read_bytes read_chunks reply_of
read_resp fuel stray st i =
    if not (is_empty (map_at (codes "content-length") st.headers))
    then some (
        reply_of st (
          read_bytes (u32_of_int (atoi (c_str (map_at (codes "content-length") st.headers)))) [] i))
    else if not (is_empty (map_at (codes "transfer-encoding") st.headers))
    then Option.map (full_reply st) (read_chunks fuel stray [] i)
    else some (full_reply st [])

pub after_loop : ℕ → ℕ → Loop → Option Reply
unfolding read_resp
after_loop fuel stray out_of_fuel = none
-- The content type is not set yet.
after_loop fuel stray (thrown st) =
    some
      (record { code = st.code; resp = []; content_type = codes "application/json"; location = [] })
after_loop fuel stray (done st i) = read_resp fuel stray st i

-- `stray` is the `chunkSize` that was never set.
unfoldable pub read_reply : ℕ → ℕ → Input → Option Reply
unfolding after_loop reply_loop
read_reply fuel stray i = after_loop fuel stray (reply_loop fuel at_start i)
