-- ===== src/Client/Reply/Counted.antt =====
-- The loop over a Content-Length.
use solusek.Base.{
  ℕ, zero, suc, ◌<◌, [], ◌∷◌, ◌++◌, ◌≡◌, refl, sym, ap, subst, arith, Bytes, length, length-append,
  append_assoc, append-nil,
}
use solusek.Socket.{Input, stream}
use solusek.Socket.Stream.{read_byte-cons, read_byte-nil}
use solusek.Client.Reply.{Got, whole, cut, read_bytes}

-- What `count` rounds read: that many bytes if they come, else all that come.
pub data ReadsBytes (s resp : Bytes) (count : ℕ) : Got → Type 0 where
  got_all :
      (c : Bytes) (i : Input)
      → s ≡ c ++ stream i
      → length c ≡ count
      → ReadsBytes s resp count (whole (resp ++ c) i)
  got_part : length s < count → ReadsBytes s resp count (cut (resp ++ s))

-- The loop over a Content-Length keeps exactly that many bytes of the stream and leaves the rest;
-- of a shorter stream it keeps every byte, and throws.
pub read_bytes-ReadsBytes :
    (count : ℕ) (resp : Bytes) (i : Input)
    → ReadsBytes (stream i) resp count (read_bytes count resp i)
unfolding read_bytes
read_bytes-ReadsBytes count resp i = go count resp i (stream i) refl
  where
    next :
        {r : Got} (b : ℕ) (s resp : Bytes) (count : ℕ)
        → ReadsBytes s (resp ++ b ∷ []) count r
        → ReadsBytes (b ∷ s) resp (suc count) r
    next b s resp count (got_all c i e n) =
        subst (λ t. ReadsBytes (b ∷ s) resp (suc count) (whole t i))
          (sym (append_assoc resp (b ∷ []) c)) (got_all (b ∷ c) i (ap (λ t. b ∷ t) e) (ap suc n))
    next b s resp count (got_part lt) =
        subst (λ t. ReadsBytes (b ∷ s) resp (suc count) (cut t))
          (sym (append_assoc resp (b ∷ []) s)) (got_part (omega arith))

    go :
        (count : ℕ) (resp : Bytes) (i : Input) (s : Bytes)
        → stream i ≡ s
        → ReadsBytes s resp count (read_bytes count resp i)
    go zero resp i s e =
        subst (λ t. ReadsBytes s resp 0 (whole t i)) (append-nil resp) (got_all [] i (sym e) refl)
    go (suc count) resp i [] e =
        rw (read_byte-nil i e, read_bytes)
          (subst (λ t. ReadsBytes [] resp (suc count) (cut t)) (append-nil resp)
            (got_part (omega arith)))
    go (suc count) resp i (b ∷ s) e =
        let read = read_byte-cons i b s e in
        rw (read.is, read_bytes)
          (next b s resp count (go count (resp ++ b ∷ []) read.rest s read.left))

-- The bytes that are announced are there.
pub got_whole :
    (c s resp : Bytes) {r : Got}
    → ReadsBytes (c ++ s) resp (length c) r
    → (i : Input) × (r ≡ whole (resp ++ c) i) × (stream i ≡ s)
got_whole c s resp (got_part lt) = absurd (omega (arith, length-append c s))
got_whole c s resp (got_all d i e n) =
    let (same, rest) = split c d s (stream i) e (sym n) in
    (i, ap (λ t. whole (resp ++ t) i) (sym same), sym rest)
  where
    split : (c d s t : Bytes) → c ++ s ≡ d ++ t → length c ≡ length d → (c ≡ d) × (s ≡ t)
    split [] [] s t e n = (refl, e)
    split [] (y ∷ d) s t e n = absurd (omega arith)
    split (x ∷ c) [] s t e n = absurd (omega arith)
    split (x ∷ c) (y ∷ d) s t e n =
        let (same, rest) = split c d s t (cc) (omega arith) in (cc, rest)
