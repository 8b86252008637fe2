-- ===== src/Node/Header.antt =====
-- `CNode::readHeader` and `CNode::getHeader`.
pub mod Lines
pub mod Parse
pub mod Colon
use solusek.Base.{
  ℕ, zero, suc, ◌+◌, Bool, true, false, ◌||◌, List, [], ◌∷◌, ◌++◌, Option, none, some, ◌==◌,
  if◌then◌else◌, Bytes, find, take, drop, str_eq,
}
use solusek.Model.{VarVal}
use solusek.Socket.{Input, read_buffer}
use solusek.Text.{trim, strtolower}

-- The variables of the loop.
pub record Reading : Type 0 where
  pub headers : List VarVal
  pub acc : Bytes
  pub ex : ℕ

-- A line at its end: split at the first colon, the name in lower case, the value trimmed.
unfoldable pub parse_line : Bytes → VarVal
parse_line acc = elim (find b':' acc) [
  | none ↦ record { var = acc; val = [] }
  | some sp ↦ record { var = strtolower (take sp acc); val = trim (drop (suc sp) acc) }
]

pub data Round : Type 0 where
  go_on : Reading → Round
  break : List VarVal → Round

-- One round of the loop, for the byte read.
unfoldable pub header_round : Reading → ℕ → Round
header_round st b =
    if b == b'\r' || b == 0
    then go_on st
    else if b == b'\n'
    then (let headers = st.headers ++ parse_line st.acc ∷ [] in
        if suc st.ex == 2
        then break headers
        else go_on (record { headers = headers; acc = []; ex = suc st.ex }))
    else go_on (record st { acc = st.acc ++ b ∷ []; ex = 0 })

pub data Loop : Type 0 where
  thrown : Loop
  out_of_fuel : Loop
  done : List VarVal → Input → Loop

-- The loop `while (true)`: each round reads one byte, and a read may throw.
unfoldable pub header_loop : ℕ → Reading → Input → Loop
header_loop zero st i = out_of_fuel
header_loop (suc fuel) st i = elim (read_buffer 1 i) [
  | none ↦ thrown
  | some (buf, i') ↦ elim buf [
    | [] ↦ thrown
    | b ∷ _ ↦ elim (header_round st b) [
      | go_on st' ↦ header_loop fuel st' i'
      | break headers ↦ done headers i'
    ]
  ]
]

abbrev pub at_start : Reading
at_start = record { headers = []; acc = []; ex = 0 }

-- The members that `readHeader` sets from the first line.
pub record RequestLine : Type 0 where
  pub method : Bytes
  pub path : Bytes
  pub query_string : Bytes
  pub protocol_version : Bytes

abbrev pub take_upto : Option ℕ → Bytes → Bytes
take_upto none s = s
take_upto (some i) s = take i s

-- `substr(find(c) + 1)`: `npos + 1` is 0.
abbrev pub drop_past_pos : Option ℕ → Bytes → Bytes
drop_past_pos none s = s
drop_past_pos (some i) s = drop (suc i) s

pub split_query : Bytes → Bytes → Bytes → RequestLine
split_query m target version = elim (find b'?' target) [
  | none ↦ record { method = m; path = target; query_string = []; protocol_version = version }
  | some sp ↦ record {
    method = m;
    path = take sp target;
    query_string = drop (suc sp) target;
    protocol_version = version;
  }
]

-- `none` is the thrown `std::exception`.
unfoldable pub parse_request_line : Bytes → Option RequestLine
unfolding split_query
parse_request_line line = elim (find b' ' line) [
  | none ↦ none
  | some sp ↦
      let seg2 = drop (suc sp) line in
      some (
        split_query (take sp line) (take_upto (find b' ' seg2) seg2)
          (drop_past_pos (find b' ' seg2) seg2))
]

unfoldable pub find_header : Bytes → List VarVal → Option Bytes
find_header tmp [] = none
find_header tmp (vv ∷ hs) =
    if str_eq (strtolower vv.var) tmp then some vv.val else find_header tmp hs

-- `getHeader`: the value of the first header with that name in any case.
unfoldable pub get_header : List VarVal → Bytes → Option Bytes
unfolding find_header
get_header headers name = find_header (strtolower (strtolower name)) headers

pub data HeaderRead : Type 0 where
  -- The `int` that `readBuffer` throws.
  closed : HeaderRead
  -- The `std::exception` for a first line with no blank.
  malformed : HeaderRead
  no_fuel : HeaderRead
  header : List VarVal → RequestLine → Input → HeaderRead

with_request_line : List VarVal → Option RequestLine → Input → HeaderRead
with_request_line headers none i = malformed
with_request_line headers (some line) i = header headers line i

-- Behind the loop: the first header is the request line.
first_header : List VarVal → Input → HeaderRead
unfolding with_request_line
first_header [] i =
    header [] (record { method = []; path = []; query_string = []; protocol_version = [] }) i
first_header (vv ∷ hs) i = with_request_line (vv ∷ hs) (parse_request_line vv.var) i

pub after_loop : Loop → HeaderRead
unfolding first_header
after_loop thrown = closed
after_loop out_of_fuel = no_fuel
after_loop (done headers i) = first_header headers i

unfoldable pub read_header : ℕ → Input → HeaderRead
unfolding after_loop
read_header fuel i = after_loop (header_loop fuel at_start i)
