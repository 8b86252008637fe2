-- ===== src/Client/Reply/Total.antt =====
-- Whatever a server answers, the reading of it ends.
use mathlib.Core.Option
use solusek.Base.{
  ℕ, zero, suc, ◌≤◌, ◌<◌, Bool, true, false, [], ◌∷◌, ◌++◌, ◌≡◌, refl, ap, ◌∙◌, arith, Option, none,
  some, not, Bytes, codes, length, length-append, is_empty, ◌==◌, ◌&&◌, if◌then◌else◌,
}
use solusek.StringMap.{map_at}
use solusek.Socket.{Input, stream}
use solusek.Socket.Stream.{Reads, chunk, read_buffer-Reads}
use solusek.Client.Reply.{
  Reading, at_start, Round, go_on, break, reply_round, Loop, thrown, out_of_fuel, done, reply_loop,
  Got, whole, cut, read_bytes, SizeLine, ended, line, size_line, past_chunk, one_chunk,
  scan_chunk_size, read_chunks, Reply, full_reply, read_resp, after_loop, read_reply,
}
use solusek.Client.Reply.Lines.{Header, header_bytes, Agrees, reply_loop-Agrees}
use solusek.Client.Reply.Lines
use solusek.Client.Reply.Counted.{ReadsBytes, got_all, got_part, read_bytes-ReadsBytes}
use solusek.Client.Reply

-- The fuel did not run out, and a line took something off the stream.
data LineRead (n : ℕ) : SizeLine → Type 0 where
  at_end : LineRead n Reply.ended
  taken : (acc : Bytes) (i : Input) → length (stream i) < n → LineRead n (line acc i)

size_line-LineRead :
    (fuel prev : ℕ) (acc : Bytes) (i : Input)
    → length (stream i) < fuel
    → LineRead (length (stream i)) (size_line fuel prev acc i)
unfolding size_line
size_line-LineRead zero prev acc i h = absurd (omega arith)
size_line-LineRead (suc fuel) prev acc i h =
    go (read_buffer-Reads 1 i (omega arith)) (λ b acc' i' k. size_line-LineRead fuel b acc' i' k)
  where
    weaker : {m n : ℕ} {r : SizeLine} → m ≤ n → LineRead m r → LineRead n r
    weaker le at_end = at_end
    weaker le (taken acc i lt) = taken acc i (omega arith)

    pick :
        (t : Bool) (n : ℕ) (i' : Input) (r : SizeLine)
        → length (stream i') < n
        → LineRead (length (stream i')) r
        → LineRead n (elim t [ true ↦ line acc i' | false ↦ r ])
    pick true n i' r lt rec = taken acc i' lt
    pick false n i' r lt rec = weaker (omega arith) rec

    go :
        {r : Option (Bytes × Input)}
        → Reads 1 i r
        → ((b : ℕ) (acc' : Bytes) (i' : Input)
            → length (stream i') < fuel
            → LineRead (length (stream i')) (size_line fuel b acc' i'))
        → LineRead (length (stream i)) (elim r [
          | none ↦ Reply.ended
          | some (buf, i') ↦ elim buf [
            | [] ↦ Reply.ended
            | b ∷ _ ↦ elim ((prev == b'\r') && (b == b'\n')) [
              | true ↦ line acc i'
              | false ↦ size_line fuel b (if b == b'\r' then acc else acc ++ b ∷ []) i'
            ]
          ]
        ])
    go (Reads.ended e) rec = at_end
    go (chunk [] i' e lo hi) rec = at_end
    go (chunk (b ∷ bs) i' e lo hi) rec =
        let shorter : length (stream i') < length (stream i) =
          omega (arith, ap length e, length-append (b ∷ bs) (stream i')) in
        pick ((prev == b'\r') && (b == b'\n')) (length (stream i)) i' _ shorter
          (rec b (if b == b'\r' then acc else acc ++ b ∷ []) i' (omega arith))

-- What a chunk leaves of the stream is not longer.
data GotWithin (n : ℕ) : Got → Type 0 where
  stopped : (resp : Bytes) → GotWithin n (cut resp)
  within : (resp : Bytes) (i : Input) → length (stream i) ≤ n → GotWithin n (whole resp i)

past_chunk-within : (n : ℕ) (g : Got) → GotWithin n g → GotWithin n (past_chunk g)
unfolding past_chunk
past_chunk-within n _ (stopped resp) = stopped resp
past_chunk-within n _ (within resp i le) = go (read_buffer-Reads 2 i (omega arith))
  where
    go :
        {r : Option (Bytes × Input)}
        → Reads 2 i r
        → GotWithin n (elim r [ none ↦ cut resp | some (buf, i') ↦ whole resp i' ])
    go (Reads.ended e) = stopped resp
    go (chunk c i' e lo hi) =
        within resp i' (omega (arith, ap length e, length-append c (stream i')))

read_bytes-within :
    (count : ℕ) (resp : Bytes) (i : Input) → GotWithin (length (stream i)) (read_bytes count resp i)
read_bytes-within count resp i = go (read_bytes-ReadsBytes count resp i)
  where
    go : {g : Got} → ReadsBytes (stream i) resp count g → GotWithin (length (stream i)) g
    go (got_all c i' e n) =
        within (resp ++ c) i' (omega (arith, ap length e, length-append c (stream i')))
    go (got_part lt) = stopped (resp ++ stream i)

-- A loop that ends on every stream below a length.
abbrev Ends : ℕ → (ℕ → Bytes → Input → Option Bytes) → Type 0
Ends fuel next =
    (n : ℕ) (resp : Bytes) (i : Input)
    → length (stream i) < fuel
    → (resp' : Bytes) × (next n resp i ≡ some resp')

one_chunk_total :
    (fuel : ℕ) (next : ℕ → Bytes → Input → Option Bytes)
    → Ends fuel next
    → Ends fuel (one_chunk next)
unfolding one_chunk
one_chunk_total fuel next rec size resp i h =
    go (size == 0) (past_chunk-within (length (stream i)) _ (read_bytes-within size resp i))
  where
    go :
        (t : Bool) {g : Got}
        → GotWithin (length (stream i)) g
        → (resp' : Bytes) × ((elim t [
          | true ↦ some resp
          | false ↦ elim g [ cut resp' ↦ some resp' | whole resp' i' ↦ next size resp' i' ]
        ])
            ≡ some resp')
    go true g = (resp, refl)
    go false (stopped resp') = (resp', refl)
    go false (within resp' i' le) = rec size resp' i' (omega arith)

-- The outer loop with more fuel than bytes.
read_chunks_total : (fuel : ℕ) → Ends fuel (read_chunks fuel)
unfolding read_chunks
read_chunks_total zero old resp i h = absurd (omega arith)
read_chunks_total (suc fuel) old resp i h =
    go (size_line-LineRead (suc fuel) 0 [] i h)
      (one_chunk_total fuel (read_chunks fuel) (read_chunks_total fuel))
  where
    go :
        {r : SizeLine}
        → LineRead (length (stream i)) r
        → Ends fuel (one_chunk (read_chunks fuel))
        → (resp' : Bytes) × ((elim r [
          | SizeLine.no_fuel ↦ none
          | SizeLine.ended ↦ some resp
          | line acc i' ↦ one_chunk (read_chunks fuel) (scan_chunk_size old acc) resp i'
        ])
            ≡ some resp')
    go at_end rec = (resp, refl)
    go (taken acc i' lt) rec = rec (scan_chunk_size old acc) resp i' (omega arith)

-- What the header loop leaves is no longer than what it found.
data HeaderWithin (n : ℕ) : Header → Type 0 where
  short : (st : Reading) → HeaderWithin n (Lines.cut st)
  behind : (st : Reading) (rest : Bytes) → length rest ≤ n → HeaderWithin n (Lines.complete st rest)

header_bytes-within : (st : Reading) (s : Bytes) → HeaderWithin (length s) (header_bytes st s)
unfolding header_bytes
header_bytes-within st [] = short st
header_bytes-within st (b ∷ s) = go (reply_round st b) (λ st'. header_bytes-within st' s)
  where
    weaker : {h : Header} → HeaderWithin (length s) h → HeaderWithin (suc (length s)) h
    weaker (short st) = short st
    weaker (behind st rest le) = behind st rest (omega arith)

    go :
        (r : Round)
        → ((st' : Reading) → HeaderWithin (length s) (header_bytes st' s))
        → HeaderWithin
            (suc (length s))
            (elim r [ go_on st' ↦ header_bytes st' s | break st' ↦ Lines.complete st' s ])
    go (go_on st') rec = weaker (rec st')
    go (break st') rec = behind st' s (omega arith)

read_resp_total :
    (fuel stray : ℕ) (st : Reading) (i : Input)
    → length (stream i) < fuel
    → (r : Reply) × (read_resp fuel stray st i ≡ some r)
unfolding read_resp
read_resp_total fuel stray st i h =
    go _ _ (not (is_empty (map_at (codes "content-length") st.headers)))
      (not (is_empty (map_at (codes "transfer-encoding") st.headers)))
      (read_chunks_total fuel stray [] i h)
  where
    go :
        (p q : Reply) (a b : Bool) {o : Option Bytes}
        → ((resp : Bytes) × (o ≡ some resp))
        → (r : Reply) × ((if a then some p else if b then Option.map (full_reply st) o else some q)
            ≡ some r)
    go p q true b c = (_, refl)
    go p q false true (resp, e) = (full_reply st resp, ap (Option.map (full_reply st)) e)
    go p q false false c = (_, refl)

-- Whatever a server answers, and however it arrives: with more fuel than bytes the reading of it
-- ends with a reply.
pub read_reply_total :
    (fuel stray : ℕ) (i : Input)
    → length (stream i) < fuel
    → (r : Reply) × (read_reply fuel stray i ≡ some r)
unfolding read_reply after_loop
read_reply_total fuel stray i h =
    go _ (header_bytes-within at_start (stream i))
      (reply_loop-Agrees fuel at_start i (stream i) refl h)
  where
    go :
        {b : Header} (l : Loop)
        → HeaderWithin (length (stream i)) b
        → Agrees b l
        → (r : Reply) × (after_loop fuel stray l ≡ some r)
    go l (short st) e = (_, ap (after_loop fuel stray) e)
    go l (behind st rest le) (i', is, left) =
        let (r, read) = read_resp_total fuel stray st i' (omega (arith, ap length left)) in
        (r, ap (after_loop fuel stray) is ∙ read)
