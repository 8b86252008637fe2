-- ===== src/Client/Reply/Chunks.antt =====
-- A body in chunks.
use solusek.Base.{
  ℕ, zero, suc, ◌≤◌, ◌<◌, Bool, true, false, List, [], ◌∷◌, ◌++◌, ◌≡◌, ◌≢◌, refl, sym, ap, ◌∙◌,
  subst, arith, Option, none, some, Bytes, c_str-Lacks, length, length-append, All, Lacks,
  append_assoc, append-nil, ◌==◌, u32_mod,
}
use solusek.Text.{ltrim, isspace}
use solusek.Socket.{Input, stream}
use solusek.Socket.Stream.{read_byte-cons, Reads, ended, chunk, read_buffer-Reads}
use solusek.Client.Reply.{
  whole, cut, read_bytes, hex_digit, scan_hex, starts_hex, past_prefix, hex_value, scan_unsigned,
  scan_signed, scan_chunk_size, line, size_line, past_chunk, one_chunk, read_chunks,
}
use solusek.Client.Reply.Counted.{got_whole, ReadsBytes, read_bytes-ReadsBytes}

-- The line of a chunk.
size_line-text :
    (fuel prev : ℕ) (acc l s : Bytes) (i : Input)
    → Lacks b'\r' l
    → prev ≢ b'\r'
    → stream i ≡ l ++ (b'\r' ∷ b'\n' ∷ s)
    → length (stream i) < fuel
    → (i' : Input) × (size_line fuel prev acc i ≡ line (acc ++ l) i') × (stream i' ≡ s)
unfolding size_line
size_line-text zero prev acc l s i h ne e fits = absurd (omega arith)
size_line-text (suc zero) prev acc [] s i h ne e fits = absurd (omega (arith, ap length e))
size_line-text (suc (suc fuel)) prev acc [] s i h ne e fits =
    let cr = read_byte-cons i b'\r' (b'\n' ∷ s) e in
    let lf = read_byte-cons cr.rest b'\n' s cr.left in
    (
      lf.rest,
      rw (cr.is, size_line)
          (rw (off prev ne)
            (rw (lf.is, size_line) (ap (λ t. line t lf.rest) (sym (append-nil acc))))),
      lf.left,
    )
  where
    off : (p : ℕ) → p ≢ b'\r' → (p == b'\r') ≡ false
    off p k = ground arith
size_line-text (suc fuel) prev acc (b ∷ l) s i h ne e fits =
    let read = read_byte-cons i b (l ++ (b'\r' ∷ b'\n' ∷ s)) e in
    let (i', is, left) =
      size_line-text fuel b (acc ++ b ∷ []) l s read.rest h.1 h.0 read.left
        (omega (arith, ap length read.left, ap length e)) in
    (
      i',
      rw (read.is, size_line)
          (rw (off prev ne, off b h.0) (is ∙ ap (λ t. line t i') (append_assoc acc (b ∷ []) l))),
      left,
    )
  where
    off : (p : ℕ) → p ≢ b'\r' → (p == b'\r') ≡ false
    off p k = ground arith

abbrev pub IsHex : Bytes → Type 0
IsHex = All (λ c. hex_digit c ≢ none)

hex-isspace : (c : ℕ) → hex_digit c ≢ none → isspace c ≡ false
hex-isspace c h = ground arith

hex-Lacks : (b : ℕ) (s : Bytes) → hex_digit b ≡ none → IsHex s → Lacks b s
hex-Lacks b [] e h = tt
hex-Lacks b (c ∷ s) e h = (λ k. h.0 (ap hex_digit k ∙ e), hex-Lacks b s e h.1)

past_prefix-hex : (s : Bytes) → IsHex s → past_prefix s ≡ s
past_prefix-hex [] h = refl
past_prefix-hex (z ∷ []) h = refl
past_prefix-hex (z ∷ x ∷ s) h = ground arith

starts_hex-hex : (c : ℕ) (s : Bytes) → hex_digit c ≢ none → starts_hex (c ∷ s) ≡ true
starts_hex-hex c s h = ground arith

ltrim-hex : (s : Bytes) → IsHex s → ltrim s ≡ s
unfolding ltrim
ltrim-hex [] h = refl
ltrim-hex (c ∷ s) h = rw (hex-isspace c h.0)

-- The line feed that a read of one byte leaves behind a chunk.
abbrev pub left_over : Bool → Bytes
left_over false = []
left_over true = b'\n' ∷ []

scan_chunk_size-hex :
    (old : ℕ) (late : Bool) (s : Bytes)
    → IsHex s
    → s ≢ []
    → scan_hex 0 s < u32_mod
    → scan_chunk_size old (left_over late ++ s) ≡ scan_hex 0 s
unfolding scan_chunk_size
scan_chunk_size-hex old late s h ne small =
    ap (λ t. scan_signed old (ltrim t)) (c_str-Lacks (left_over late ++ s) (printed late))
    ∙ ap (scan_signed old) (trimmed late)
    ∙ signed s h ne small
  where
    printed : (late : Bool) → Lacks 0 (left_over late ++ s)
    printed false = hex-Lacks 0 s (ground arith) h
    printed true = (ground arith, hex-Lacks 0 s (ground arith) h)

    trimmed : (late : Bool) → ltrim (left_over late ++ s) ≡ s
    trimmed false = ltrim-hex s h
    trimmed true = unfold ltrim in ltrim-hex s h

    signed :
        (s : Bytes) → IsHex s → s ≢ [] → scan_hex 0 s < u32_mod → scan_signed old s ≡ scan_hex 0 s
    signed [] h ne small = absurd (ne refl)
    signed (c ∷ s) h ne small =
        unfold scan_signed scan_unsigned in
        (let plain = past_prefix-hex (c ∷ s) h in
          let start = starts_hex-hex c s h.0 in
          let no_minus : (c == b'-') ≡ false = ground (arith, h.0) in
          let no_plus : (c == b'+') ≡ false = ground (arith, h.0) in
          rw (no_minus, no_plus, start, plain) (value (scan_hex 0 (c ∷ s)) small))
      where
        value : (n : ℕ) → n < u32_mod → hex_value false n ≡ n
        value n small = ground arith

-- Behind a chunk: the two bytes are taken, or only the first.
past_chunk-whole :
    (resp s : Bytes) (i : Input)
    → stream i ≡ b'\r' ∷ b'\n' ∷ s
    → (i' : Input) × (late : Bool) × (past_chunk (whole resp i) ≡ whole resp i')
      × (stream i' ≡ left_over late ++ s)
unfolding past_chunk
past_chunk-whole resp s i e = go (read_buffer-Reads 2 i (omega arith))
  where
    go :
        {r : Option (Bytes × Input)}
        → Reads 2 i r
        → (i' : Input) × (late : Bool) × ((elim r [
          | none ↦ cut resp
          | some (buf, i') ↦ whole resp i'
        ])
            ≡ whole resp i')
          × (stream i' ≡ left_over late ++ s)
    go (ended e') = absurd (cc)
    go (chunk [] i' e' lo hi) = absurd (omega arith)
    go (chunk (c ∷ []) i' e' lo hi) = (i', true, refl, cc)
    go (chunk (c ∷ d ∷ []) i' e' lo hi) = (i', false, refl, cc)
    go (chunk (c ∷ d ∷ f ∷ cs) i' e' lo hi) = absurd (omega arith)

-- A chunk: the digits of its size, and its bytes.
pub record Chunk : Type 0 where
  pub size : Bytes
  pub bytes : Bytes

pub record IsChunk (c : Chunk) : Type 0 where
  pub hex : IsHex c.size
  pub given : c.size ≢ []
  pub counts : scan_hex 0 c.size ≡ length c.bytes
  pub more : 0 < length c.bytes
  pub small : length c.bytes < u32_mod

abbrev pub chunks_text : List Chunk → Bytes → Bytes
chunks_text [] rest = b'0' ∷ b'\r' ∷ b'\n' ∷ rest
chunks_text (c ∷ cs) rest =
    c.size ++ (b'\r' ∷ b'\n' ∷ (c.bytes ++ (b'\r' ∷ b'\n' ∷ chunks_text cs rest)))

abbrev pub chunks_bytes : List Chunk → Bytes
chunks_bytes [] = []
chunks_bytes (c ∷ cs) = c.bytes ++ chunks_bytes cs

-- The line of a chunk, also with a line feed left over in front of it.
size_line-hex :
    (fuel : ℕ) (late : Bool) (h s : Bytes) (i : Input)
    → IsHex h
    → stream i ≡ left_over late ++ (h ++ (b'\r' ∷ b'\n' ∷ s))
    → length (stream i) < fuel
    → (i' : Input) × (size_line fuel 0 [] i ≡ line (left_over late ++ h) i') × (stream i' ≡ s)
size_line-hex fuel late h s i hex e fits =
    size_line-text fuel 0 [] (left_over late ++ h) s i (plain late) (ground arith)
      (e ∙ sym (append_assoc (left_over late) h (b'\r' ∷ b'\n' ∷ s))) fits
  where
    plain : (late : Bool) → Lacks b'\r' (left_over late ++ h)
    plain false = hex-Lacks b'\r' h (ground arith) hex
    plain true = (ground arith, hex-Lacks b'\r' h (ground arith) hex)

-- A chunk that is read whole.
one_chunk-whole :
    (next : ℕ → Bytes → Input → Option Bytes) (n : ℕ) (resp resp' resp'' : Bytes) (i i' i'' : Input)
    → 0 < n
    → read_bytes n resp i ≡ whole resp' i'
    → past_chunk (whole resp' i') ≡ whole resp'' i''
    → one_chunk next n resp i ≡ next n resp'' i''
unfolding one_chunk
one_chunk-whole next n resp resp' resp'' i i' i'' more got past =
    let off : (n == 0) ≡ false = ground arith in rw (off, one_chunk) (rw got (rw past refl))

read_chunks-late :
    (fuel old : ℕ) (late : Bool) (resp : Bytes) (cs : List Chunk) (rest : Bytes) (i : Input)
    → All IsChunk cs
    → stream i ≡ left_over late ++ chunks_text cs rest
    → length (stream i) < fuel
    → read_chunks fuel old resp i ≡ some (resp ++ chunks_bytes cs)
unfolding read_chunks
read_chunks-late zero old late resp cs rest i h e fits = absurd (omega arith)
read_chunks-late (suc fuel) old late resp [] rest i h e fits =
    let hex : IsHex (b'0' ∷ []) = (ground arith, tt) in
    let zero_hex : scan_hex 0 (b'0' ∷ []) ≡ 0 = unfold scan_hex in refl in
    let (i1, is1, left1) = size_line-hex (suc fuel) late (b'0' ∷ []) rest i hex e fits in
    let size =
      scan_chunk_size-hex old late (b'0' ∷ []) hex (ground arith) (omega (arith, zero_hex))
      ∙ zero_hex in
    rw (is1, read_chunks)
      (ap (λ n. one_chunk (read_chunks fuel) n resp i1) size
        ∙ (unfold one_chunk in (ap some (sym (append-nil resp)))))
read_chunks-late (suc fuel) old late resp (c ∷ cs) rest i (h, hs) e fits =
    let after = chunks_text cs rest in
    let behind = c.bytes ++ (b'\r' ∷ b'\n' ∷ after) in
    let (i1, is1, left1) = size_line-hex (suc fuel) late c.size behind i h.hex e fits in
    let size =
      scan_chunk_size-hex old late c.size h.hex h.given (omega (arith, h.counts, h.small))
      ∙ h.counts in
    let (i2, is2, left2) = got_whole c.bytes (b'\r' ∷ b'\n' ∷ after) resp (
      subst (λ s. ReadsBytes s resp (length c.bytes) (read_bytes (length c.bytes) resp i1)) left1
        (read_bytes-ReadsBytes (length c.bytes) resp i1)) in
    let (i3, late', is3, left3) = past_chunk-whole (resp ++ c.bytes) after i2 left2 in
    let shorter : length (stream i3) < fuel = omega (
      arith,
      h.more,
      ap length left3,
      ap length e,
      length-append (left_over late) (c.size ++ (b'\r' ∷ b'\n' ∷ behind)),
      length-append c.size (b'\r' ∷ b'\n' ∷ behind),
      length-append c.bytes (b'\r' ∷ b'\n' ∷ after),
      length-append (left_over late') after,
      left_over_le late',
    ) in
    rw (is1, read_chunks)
      (ap (λ n. one_chunk (read_chunks fuel) n resp i1) size
        ∙ one_chunk-whole (read_chunks fuel) (length c.bytes) resp (resp ++ c.bytes)
            (resp ++ c.bytes) i1 i2 i3 h.more is2 is3
        ∙ read_chunks-late fuel (length c.bytes) late' (resp ++ c.bytes) cs rest i3 hs left3 shorter
        ∙ ap some (append_assoc resp c.bytes (chunks_bytes cs)))
  where
    left_over_le : (late : Bool) → length (left_over late) ≤ 1
    left_over_le false = omega arith
    left_over_le true = omega arith

-- A body in chunks, each of 1 to 2^32 - 1 bytes behind its size in hexadecimal digits, and with the
-- chunk of size 0 at the end, is put together again: however the bytes arrive (a read of the line
-- end behind a chunk may return one byte of the two), whatever stood in `chunkSize` before and with
-- more fuel than bytes.
pub read_chunks-text :
    (fuel old : ℕ) (resp : Bytes) (cs : List Chunk) (rest : Bytes) (i : Input)
    → All IsChunk cs
    → stream i ≡ chunks_text cs rest
    → length (stream i) < fuel
    → read_chunks fuel old resp i ≡ some (resp ++ chunks_bytes cs)
read_chunks-text fuel old resp cs rest i h e fits =
    read_chunks-late fuel old false resp cs rest i h e fits
