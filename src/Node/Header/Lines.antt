-- ===== src/Node/Header/Lines.antt =====
-- The header loop over any segmentation of the stream, and on well-formed header blocks.
use solusek.Base.{
  ℕ, zero, suc, ◌<◌, List, [], ◌∷◌, ◌++◌, map, ◌≡◌, ◌≢◌, refl, ap, ◌∙◌, arith, Option, none, some,
  Bytes, length, All, append_assoc, append-nil,
}
use solusek.Model.{VarVal}
use solusek.Socket.{Input, stream}
use solusek.Socket.Stream.{read_byte-cons, read_byte-nil}
use solusek.Node.Header.{
  Reading, at_start, Round, go_on, break, Loop, thrown, done, parse_line, header_round, header_loop,
}

-- The loop on the bytes themselves: what it pushed and the bytes behind it; `none` if they end first.
unfoldable pub header_bytes : Reading → Bytes → Option (List VarVal × Bytes)
header_bytes st [] = none
header_bytes st (b ∷ s) = elim (header_round st b) [
  | go_on st' ↦ header_bytes st' s
  | break headers ↦ some (headers, s)
]

abbrev pub Agrees : Option (List VarVal × Bytes) → Loop → Type 0
Agrees none r = r ≡ thrown
Agrees (some (headers, rest)) r = (i : Input) × (r ≡ done headers i) × (stream i ≡ rest)

-- However the bytes arrive, and with more fuel than bytes, the loop does what their text says.
pub header_loop-Agrees :
    (fuel : ℕ) (st : Reading) (i : Input) (s : Bytes)
    → stream i ≡ s
    → length s < fuel
    → Agrees (header_bytes st s) (header_loop fuel st i)
unfolding header_bytes header_loop
header_loop-Agrees zero st i s e h = elim h [ ]
header_loop-Agrees (suc fuel) st i [] e h = rw (read_byte-nil i e, header_loop)
header_loop-Agrees (suc fuel) st i (b ∷ s) e h =
    let read = read_byte-cons i b s e in
    rw (read.is, header_loop)
      (go (header_round st b) read.rest
        (λ st'. header_loop-Agrees fuel st' read.rest s read.left (omega arith)) read.left)
  where
    go :
        (r : Round) (i' : Input)
        → ((st' : Reading) → Agrees (header_bytes st' s) (header_loop fuel st' i'))
        → stream i' ≡ s
        → Agrees
            (elim r [ go_on st' ↦ header_bytes st' s | break headers ↦ some (headers, s) ])
            (elim r [ go_on st' ↦ header_loop fuel st' i' | break headers ↦ done headers i' ])
    go (go_on st') i' rec left = rec st'
    go (break headers) i' rec left = (i', refl, left)

-- No byte that ends a line or is skipped.
abbrev pub IsText : Bytes → Type 0
IsText = All (λ c. (c ≢ b'\r') × (c ≢ b'\n') × (c ≢ 0))

header_bytes-text :
    (headers : List VarVal) (acc l s : Bytes)
    → IsText l
    → header_bytes (record { headers = headers; acc = acc; ex = 0 }) (l ++ s)
      ≡ header_bytes (record { headers = headers; acc = acc ++ l; ex = 0 }) s
unfolding header_bytes header_round
header_bytes-text headers acc [] s h = rw append-nil
header_bytes-text headers acc (c ∷ l) s h =
    ground (arith, header_bytes-text headers (acc ++ c ∷ []) l s h.1, append_assoc acc (c ∷ []) l)

-- A line that is not empty, at the start of a line.
header_bytes-line :
    (headers : List VarVal) (ex : ℕ) (l s : Bytes)
    → IsText l
    → l ≢ []
    → header_bytes (record { headers = headers; acc = []; ex = ex }) (l ++ (b'\r' ∷ b'\n' ∷ s))
      ≡ header_bytes (record { headers = headers ++ parse_line l ∷ []; acc = []; ex = 1 }) s
unfolding header_bytes header_round
header_bytes-line headers ex [] s h ne = absurd (ne refl)
header_bytes-line headers ex (c ∷ l) s h ne =
    ground (arith, header_bytes-text headers (c ∷ []) l (b'\r' ∷ b'\n' ∷ s) h.1)

-- Lines, each ended by CR LF, then an empty one and what follows.
abbrev pub block : List Bytes → Bytes → Bytes
block [] rest = b'\r' ∷ b'\n' ∷ rest
block (l ∷ ls) rest = l ++ (b'\r' ∷ b'\n' ∷ block ls rest)

abbrev pub IsLine : Bytes → Type 0
IsLine l = IsText l × (l ≢ [])

header_bytes-more :
    (headers : List VarVal) (ls : List Bytes) (rest : Bytes)
    → All IsLine ls
    → header_bytes (record { headers = headers; acc = []; ex = 1 }) (block ls rest)
      ≡ some (headers ++ (map parse_line ls ++ parse_line [] ∷ []), rest)
header_bytes-more headers [] rest h = unfold header_bytes header_round in refl
header_bytes-more headers (l ∷ ls) rest h =
    header_bytes-line headers 1 l (block ls rest) h.0.0 h.0.1
    ∙ header_bytes-more (headers ++ parse_line l ∷ []) ls rest h.1
    ∙ ap (λ t. some (t, rest)) (append_assoc headers (parse_line l ∷ []) _)

-- The lines of a block are parsed one by one, with an empty header behind the last.
pub header_bytes-block :
    (l : Bytes) (ls : List Bytes) (rest : Bytes)
    → IsLine l
    → All IsLine ls
    → header_bytes at_start (block (l ∷ ls) rest)
      ≡ some (parse_line l ∷ (map parse_line ls ++ parse_line [] ∷ []), rest)
header_bytes-block l ls rest h hs =
    header_bytes-line [] 0 l (block ls rest) h.0 h.1
    ∙ header_bytes-more (parse_line l ∷ []) ls rest hs
