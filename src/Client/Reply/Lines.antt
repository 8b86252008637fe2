-- ===== src/Client/Reply/Lines.antt =====
-- The header of a response, however it arrives, and on lines as a server writes them.
use solusek.Base.{
  ℕ, zero, suc, ◌<◌, List, [], ◌∷◌, ◌++◌, ◌≡◌, ◌≢◌, refl, ap, ◌∙◌, arith, none, if◌then◌else◌,
  Bytes, codes, find_str, find-append, length, All, Lacks, append_assoc, append-nil, take-append,
  drop_past, Option-cases, inl, inr, ℤ, str_eq,
}
use solusek.Text.{trim, strtolower}
use solusek.StringMap.{StringMap, map_set, map_at}
use solusek.StringMap.Laws.{map_at-set}
use solusek.Socket.{Input, stream}
use solusek.Socket.Stream.{read_byte-cons, read_byte-nil}
use solusek.Node.Header.Lines.{IsText, IsLine, block}
use solusek.Client.Reply.{
  Reading, at_start, Round, go_on, break, Loop, thrown, done, status_code, keep_header, take_line,
  reply_round, reply_loop,
}

-- The loop on the bytes themselves.
pub data Header : Type 0 where
  cut : Reading → Header
  complete : Reading → Bytes → Header

unfoldable pub header_bytes : Reading → Bytes → Header
header_bytes st [] = cut st
header_bytes st (b ∷ s) = elim (reply_round st b) [
  | go_on st' ↦ header_bytes st' s
  | break st' ↦ complete st' s
]

abbrev pub Agrees : Header → Loop → Type 0
Agrees (cut st) r = r ≡ thrown st
Agrees (complete st rest) r = (i : Input) × (r ≡ done st i) × (stream i ≡ rest)

-- However the bytes of a response arrive, and with more fuel than bytes, the loop that reads its
-- header does what their text says.
pub reply_loop-Agrees :
    (fuel : ℕ) (st : Reading) (i : Input) (s : Bytes)
    → stream i ≡ s
    → length s < fuel
    → Agrees (header_bytes st s) (reply_loop fuel st i)
unfolding header_bytes reply_loop
reply_loop-Agrees zero st i s e h = elim h [ ]
reply_loop-Agrees (suc fuel) st i [] e h = rw (read_byte-nil i e, reply_loop)
reply_loop-Agrees (suc fuel) st i (b ∷ s) e h =
    let read = read_byte-cons i b s e in
    rw (read.is, reply_loop)
      (go (reply_round st b) read.rest
        (λ st'. reply_loop-Agrees fuel st' read.rest s read.left (omega arith)) read.left)
  where
    go :
        (r : Round) (i' : Input)
        → ((st' : Reading) → Agrees (header_bytes st' s) (reply_loop fuel st' i'))
        → stream i' ≡ s
        → Agrees
            (elim r [ go_on st' ↦ header_bytes st' s | break st' ↦ complete st' s ])
            (elim r [ go_on st' ↦ reply_loop fuel st' i' | break st' ↦ done st' i' ])
    go (go_on st') i' rec left = rec st'
    go (break st') i' rec left = (i', refl, left)

header_bytes-text :
    (code : ℤ) (headers : StringMap) (acc l s : Bytes)
    → IsText l
    → header_bytes (record { code = code; headers = headers; line = acc; ex = 0 }) (l ++ s)
      ≡ header_bytes (record { code = code; headers = headers; line = acc ++ l; ex = 0 }) s
unfolding header_bytes reply_round
header_bytes-text code headers acc [] s h = rw append-nil
header_bytes-text code headers acc (c ∷ l) s h =
    ground
      (arith, header_bytes-text code headers (acc ++ c ∷ []) l s h.1, append_assoc acc (c ∷ []) l)

-- The state at the start of a line.
abbrev between : ℤ → StringMap → ℕ → Reading
between code headers ex = record { code = code; headers = headers; line = []; ex = ex }

-- A line whose round ends in `st`.
header_bytes-line :
    (code code' : ℤ) (headers headers' : StringMap) (ex : ℕ) (l s : Bytes)
    → IsLine l
    → take_line (record { code = code; headers = headers; line = l; ex = 0 })
      ≡ between code' headers' 1
    → header_bytes (between code headers ex) (l ++ (b'\r' ∷ b'\n' ∷ s))
      ≡ header_bytes (between code' headers' 1) s
unfolding header_bytes reply_round
header_bytes-line code code' headers headers' ex [] s h e = absurd (h.1 refl)
header_bytes-line code code' headers headers' ex (c ∷ l) s h e =
    first ∙ header_bytes-text code headers (c ∷ []) l (b'\r' ∷ b'\n' ∷ s) h.0.1 ∙ last
  where
    first :
        header_bytes (between code headers ex) (c ∷ (l ++ (b'\r' ∷ b'\n' ∷ s)))
        ≡ header_bytes
            (record { code = code; headers = headers; line = c ∷ []; ex = 0 })
            (l ++ (b'\r' ∷ b'\n' ∷ s))
    first = ground (arith, h.0.0)

    last :
        header_bytes
          (record { code = code; headers = headers; line = c ∷ l; ex = 0 })
          (b'\r' ∷ b'\n' ∷ s)
        ≡ header_bytes (between code' headers' 1) s
    last = rw (header_bytes, e) refl

-- What is read of a line that is no status line.
abbrev pub IsHeaderLine : Bytes → Type 0
IsHeaderLine l = IsLine l × (find_str (codes "HTTP/1.1") l ≡ none)

abbrev pub keep_all : List Bytes → StringMap → StringMap
keep_all [] headers = headers
keep_all (l ∷ ls) headers = keep_all ls (keep_header l headers)

header_bytes-more :
    (code : ℤ) (headers : StringMap) (ls : List Bytes) (rest : Bytes)
    → All IsHeaderLine ls
    → header_bytes (between code headers 1) (block ls rest)
      ≡ complete (between code (keep_header [] (keep_all ls headers)) 2) rest
header_bytes-more code headers [] rest h = unfold header_bytes reply_round take_line in refl
header_bytes-more code headers (l ∷ ls) rest h =
    header_bytes-line code code headers (keep_header l headers) 1 l (block ls rest) h.0.0
      (unfold take_line in (rw (h.0.1, take_line) refl))
    ∙ header_bytes-more code (keep_header l headers) ls rest h.1

-- A status line, then lines that hold no "HTTP/1.1", then an empty one.
pub header_bytes-block :
    (status : Bytes) (ls : List Bytes) (rest : Bytes)
    → IsLine status
    → find_str (codes "HTTP/1.1") status ≢ none
    → All IsHeaderLine ls
    → header_bytes at_start (block (status ∷ ls) rest)
      ≡ complete (between (status_code status) (keep_header [] (keep_all ls [])) 2) rest
unfolding take_line
header_bytes-block status ls rest h found hs =
    header_bytes-line _ (status_code status) [] [] 0 status (block ls rest) h taken
    ∙ header_bytes-more (status_code status) [] ls rest hs
  where
    taken :
        take_line (record { code = at_start.code; headers = []; line = status; ex = 0 })
        ≡ between (status_code status) [] 1
    taken = elim (Option-cases (find_str (codes "HTTP/1.1") status)) [
      | inl e ↦ absurd (found e)
      | inr (n, e) ↦ rw (e, take_line) refl
    ]

-- A line with a name and a value.
pub keep_header-field :
    (name val : Bytes) (m : StringMap)
    → Lacks b':' name
    → keep_header (name ++ b':' ∷ val) m ≡ map_set (trim (strtolower name)) (trim val) m
unfolding keep_header
keep_header-field name val m h =
    rw (find-append b':' name val h, take-append name (b':' ∷ val), drop_past name b':' val)

-- What a name stands for behind such a line.
pub map_at-keep_header :
    (j name val : Bytes) (m : StringMap)
    → Lacks b':' name
    → map_at j (keep_header (name ++ b':' ∷ val) m)
      ≡ (if str_eq (trim (strtolower name)) j then trim val else map_at j m)
map_at-keep_header j name val m h =
    ap (map_at j) (keep_header-field name val m h)
    ∙ map_at-set j (trim (strtolower name)) (trim val) m
