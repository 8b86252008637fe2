-- ===== src/Node/Body/Total.antt =====
-- What `readBody` reads for every stream, and what a NUL byte costs.
use solusek.Base.{
  ℕ, zero, suc, ◌+◌, ◌-◌, ◌%◌, ◌≤◌, ◌<◌, false, List, [], ◌∷◌, ◌++◌, ◌≡◌, refl, sym, ap, ◌∙◌, subst,
  arith, Option, none, some, inl, inr, ltb, ltb→lt, lt→ltb, Bool-cases, Bytes, c_str, c_str-Lacks,
  c_str_nul, codes, length, length-append, append_assoc, append-nil, Lacks, u32_mod, u32_of_int,
}
use solusek.Model.{VarVal}
use solusek.Decimal.{atoi}
use solusek.Socket.{Input, stream}
use solusek.Socket.Stream.{Reads, ended, chunk, read_buffer-Reads, read_pending}
use solusek.Node.Header.{get_header}
use solusek.Node.Body.{
  BodyRead, closed, body, body_loop, read_length, read_body, default_chunk_size,
}

-- With `want` bytes to come: the stream is too short for them, or a front of it is the body, at
-- least `want` long and less than one chunk longer.
pub data ReadsBody (s : Bytes) (want : ℕ) (acc : Bytes) : BodyRead → Type 0 where
  short : length s < want → ReadsBody s want acc closed
  full :
      (p : Bytes) (i : Input)
      → s ≡ p ++ stream i
      → want ≤ length p
      → length p < want + default_chunk_size
      → (want ≡ 0 → length p ≡ 0)
      → ReadsBody s want acc (body (acc ++ p) i)

Lacks-left : (b : ℕ) (s t : Bytes) → Lacks b (s ++ t) → Lacks b s
Lacks-left b [] t h = tt
Lacks-left b (x ∷ s) t h = (h.0, Lacks-left b s t h.1)

Lacks-right : (b : ℕ) (s t : Bytes) → Lacks b (s ++ t) → Lacks b t
Lacks-right b [] t h = h
Lacks-right b (x ∷ s) t h = Lacks-right b s t h.1

-- One chunk, then the rest of the loop.
ReadsBody-chunk :
    (s c s' acc : Bytes) (n len : ℕ) {r : BodyRead}
    → s ≡ c ++ s'
    → 0 < length c
    → length c ≤ default_chunk_size
    → n < len
    → ReadsBody s' (len - (n + length c)) (acc ++ c) r
    → ReadsBody s (len - n) acc r
ReadsBody-chunk s c s' acc n len e lo hi lt (short h) =
    short (omega (arith, ap length e, length-append c s'))
ReadsBody-chunk s c s' acc n len e lo hi lt (full p i f a b d) =
    subst (λ t. ReadsBody s (len - n) acc (body t i)) (sym (append_assoc acc c p))
      (full (c ++ p) i (e ∙ ap (λ t. c ++ t) f ∙ sym (append_assoc c p (stream i)))
        (omega (arith, length-append c p)) (go d) (λ z. absurd (omega arith)))
  where
    go :
        (len - (n + length c) ≡ 0 → length p ≡ 0) → length (c ++ p) < (len - n) + default_chunk_size
    go d = elim (Bool-cases (ltb (n + length c) len)) [
      | inl t ↦ let t' = ltb→lt (n + length c) len t in omega (arith, length-append c p)
      | inr t ↦
          let none_left : len - (n + length c) ≡ 0 = ground arith in
          omega (arith, length-append c p, d none_left)
    ]

body_loop-ReadsBody :
    (fuel n len : ℕ) (acc : Bytes) (i : Input)
    → Lacks 0 (stream i)
    → len + default_chunk_size ≤ u32_mod
    → length (stream i) < fuel
    → ReadsBody (stream i) (len - n) acc (body_loop fuel n len acc i)
unfolding body_loop
body_loop-ReadsBody zero n len acc i h w fits = elim fits [ ]
body_loop-ReadsBody (suc fuel) n len acc i h w fits = elim (Bool-cases (ltb n len)) [
  | inr t ↦
      rw (t, body_loop)
        (subst (λ b. ReadsBody (stream i) (len - n) acc (body b i)) (append-nil acc)
          (full [] i refl (ground arith) (omega arith) (λ z. refl)))
  | inl t ↦
      rw (t, body_loop)
        (go (read_buffer-Reads default_chunk_size i (omega arith)) (ltb→lt n len t)
          λ c i' rest. body_loop-ReadsBody fuel (n + length c) len (acc ++ c) i' rest w)
]
  where
    go :
        {r : Option (Bytes × Input)}
        → Reads default_chunk_size i r
        → n < len
        → ((c : Bytes) (i' : Input)
            → Lacks 0 (stream i')
            → length (stream i') < fuel
            → ReadsBody
                (stream i')
                (len - (n + length c))
                (acc ++ c)
                (body_loop fuel (n + length c) len (acc ++ c) i'))
        → ReadsBody (stream i) (len - n) acc (elim r [
          | none ↦ closed
          | some (buf, i') ↦ body_loop fuel ((n + length buf) % u32_mod) len (acc ++ c_str buf) i'
        ])
    go (ended e) lt rec = short (omega (arith, ap length e))
    go (chunk c i' e lo hi) lt rec =
        let whole : c_str c ≡ c =
          c_str-Lacks c (Lacks-left 0 c (stream i') (subst (Lacks 0) e h)) in
        let small : (n + length c) % u32_mod ≡ n + length c = omega arith in
        rw (whole, small)
          (ReadsBody-chunk (stream i) c (stream i') acc n len e lo hi lt (
            rec c i' (Lacks-right 0 c (stream i') (subst (Lacks 0) e h))
              (omega (arith, ap length e, length-append c (stream i')))))

-- For a stream with no NUL byte and a Content-Length that leaves room for one more chunk below
-- 2^32: the call throws exactly when the stream is shorter than the length that `atoi` reads;
-- otherwise the body is a front of the stream, at least that long, less than one chunk longer and
-- empty for the length 0, and the rest of the stream is left. The fuel never runs out.
pub read_body-ReadsBody :
    (fuel : ℕ) (headers : List VarVal) (v : Bytes) (i : Input)
    → get_header headers (codes "content-length") ≡ some v
    → Lacks 0 (stream i)
    → u32_of_int (atoi (c_str v)) + default_chunk_size ≤ u32_mod
    → length (stream i) < fuel
    → ReadsBody (stream i) (u32_of_int (atoi (c_str v))) [] (read_body fuel headers i)
unfolding read_body read_length
read_body-ReadsBody fuel headers v i e h w fits =
    let len = u32_of_int (atoi (c_str v)) in
    let whole : len - 0 ≡ len = omega arith in
    rw e (
      subst (λ k. ReadsBody (stream i) k [] (body_loop fuel 0 len [] i)) whole
        (body_loop-ReadsBody fuel 0 len [] i h w fits))

-- With no Content-Length nothing is read, and the body is empty.
pub read_body-none :
    (fuel : ℕ) (headers : List VarVal) (i : Input)
    → get_header headers (codes "content-length") ≡ none
    → read_body fuel headers i ≡ body [] i
unfolding read_body read_length
read_body-none fuel headers i e = rw e

-- A body of the announced length, of one chunk at most, that arrives in one piece with a NUL
-- byte in it is cut at the first one: the bytes behind it are read and dropped.
pub read_body_nul :
    (fuel : ℕ) (headers : List VarVal) (v a b : Bytes) (ss : List Bytes)
    → get_header headers (codes "content-length") ≡ some v
    → u32_of_int (atoi (c_str v)) ≡ length (a ++ 0 ∷ b)
    → length (a ++ 0 ∷ b) ≤ default_chunk_size
    → Lacks 0 a
    → read_body (suc (suc fuel)) headers (record { pending = a ++ 0 ∷ b; arrivals = ss })
      ≡ body a (record { pending = []; arrivals = ss })
unfolding read_body read_length body_loop
read_body_nul fuel headers v a b ss e len fits h =
    let want = u32_of_int (atoi (c_str v)) in
    let some_bytes : 0 < want = omega (arith, length-append a (0 ∷ b)) in
    let counted : (0 + length (a ++ 0 ∷ b)) % u32_mod ≡ want = omega arith in
    let over : ltb want want ≡ false = ground arith in
    rw (
      e,
      lt→ltb 0 want some_bytes,
      body_loop,
      read_pending default_chunk_size (a ++ 0 ∷ b) ss (λ k. omega (arith, ap length k)) fits,
      counted,
      over,
      c_str_nul a b h,
    )
