-- ===== src/Node/Cookies/Parse.antt =====
-- The cookies that the loop finds.
use solusek.Base.{
  ℕ, zero, suc, ◌+◌, ◌%◌, ◌<◌, true, false, not, ◌&&◌, List, [], ◌∷◌, ◌++◌, ◌≡◌, ◌≢◌, refl, sym, ap,
  ◌∙◌, arith, some, inl, inr, ◌==◌, ltb, lt→ltb, if◌then◌else◌, Bool-cases, Bytes, codes, str_eq,
  find, find-append, find-Lacks, length, length-append, length-drop, take-append, take_all,
  drop_past, append_assoc, append-nil, Lacks, All, All-append, u32_mod, npos, u32_of_pos,
}
use solusek.Model.{new_cookie}
use solusek.Text.{trim, isspace}
use solusek.Text.Trim.{Starts, Ends, trim_padded}
use solusek.Node.Cookies.{Jar, add_cookie, next_piece, cookie_rounds, parse_cookies}

abbrev pub with_cookie : Jar → Bytes → Bytes → Jar
with_cookie j n v = record {
  cookies = j.cookies ++ new_cookie n v ∷ [];
  sid = if str_eq n (codes "SolusekSID") then v else j.sid;
}

-- A pair with an equals sign is split at the first one.
pub add_cookie_pair :
    (j : Jar) (n v : Bytes)
    → Lacks b'=' n
    → suc (length n) < u32_mod
    → add_cookie j (n ++ b'=' ∷ v) ≡ with_cookie j n v
unfolding add_cookie
add_cookie_pair j n v h fits =
    let place : length n % u32_mod ≡ length n = omega arith in
    let next : (length n + 1) % u32_mod ≡ suc (length n) = omega arith in
    let found : (length n == npos) ≡ false = ground arith in
    rw (find-append b'=' n v h, place, next, found, take-append n (b'=' ∷ v), drop_past n b'=' v)

-- A piece shorter than 2^32 with no equals sign is taken for a cookie whose name and value are
-- both the whole piece.
pub add_cookie_bare :
    (j : Jar) (ck : Bytes)
    → Lacks b'=' ck
    → length ck < u32_mod
    → add_cookie j ck ≡ with_cookie j ck ck
unfolding add_cookie
add_cookie_bare j ck h fits = rw (find-Lacks b'=' ck h, take_all 4294967295 ck (omega arith))

cookie_rounds_step :
    (fuel : ℕ) (s : Bytes) (j : Jar)
    → s ≢ []
    → cookie_rounds (suc fuel) s j
      ≡ cookie_rounds fuel (next_piece s).1 (add_cookie j (trim (next_piece s).0))
cookie_rounds_step fuel [] j ne = absurd (ne refl)
cookie_rounds_step fuel (c ∷ s) j ne = unfold cookie_rounds in refl

next_piece-lt : (c : ℕ) (s : Bytes) → length (next_piece (c ∷ s)).1 < length (c ∷ s)
unfolding next_piece
next_piece-lt c s =
    let sp = u32_of_pos (find b';' (c ∷ s)) in
    elim (Bool-cases (not (sp == npos) && ltb sp (length (c ∷ s)))) [
      | inl e ↦ rw e (omega (arith, length-drop sp s))
      | inr e ↦ rw e (omega arith)
    ]

cookie_rounds_total :
    (fuel : ℕ) (s : Bytes) (j : Jar)
    → length s < fuel
    → (r : Jar) × (cookie_rounds fuel s j ≡ some r)
cookie_rounds_total zero s j h = elim h [ ]
cookie_rounds_total (suc fuel) [] j h = unfold cookie_rounds in (j, refl)
cookie_rounds_total (suc fuel) (c ∷ s) j h =
    let piece = next_piece (c ∷ s) in
    let (r, e) =
      cookie_rounds_total fuel piece.1 (add_cookie j (trim piece.0))
        (omega (arith, next_piece-lt c s)) in
    (r, cookie_rounds_step fuel (c ∷ s) j (λ k. cc) ∙ e)

-- Whatever the header holds, the loop ends.
pub parse_cookies_total : (val : Bytes) → (j : Jar) × (parse_cookies val ≡ some j)
unfolding parse_cookies
parse_cookies_total val = cookie_rounds_total (suc (length val)) val _ (omega arith)

-- `name=value` pairs as a browser joins them.
abbrev pub cookie_text : List (Bytes × Bytes) → Bytes
cookie_text [] = []
cookie_text ((n, v) ∷ []) = n ++ b'=' ∷ v
cookie_text ((n, v) ∷ c ∷ cs) = (n ++ b'=' ∷ v) ++ (b';' ∷ b' ' ∷ cookie_text (c ∷ cs))

abbrev pub IsCookie : Bytes × Bytes → Type 0
IsCookie (n, v) =
    Lacks b'=' n × Lacks b';' (n ++ b'=' ∷ v) × Starts (n ++ b'=' ∷ v) × Ends (n ++ b'=' ∷ v)

abbrev pub fill_jar : Jar → List (Bytes × Bytes) → Jar
fill_jar j [] = j
fill_jar j ((n, v) ∷ cs) = fill_jar (with_cookie j n v) cs

next_piece_more :
    (p rest : Bytes) → Lacks b';' p → length p < u32_mod → next_piece (p ++ b';' ∷ rest) ≡ (p, rest)
unfolding next_piece
next_piece_more p rest h fits =
    let place : length p % u32_mod ≡ length p = omega arith in
    let found : (length p == npos) ≡ false = ground arith in
    let inside : ltb (length p) (length (p ++ b';' ∷ rest)) ≡ true =
      lt→ltb _ _ (omega (arith, length-append p (b';' ∷ rest))) in
    rw (
      find-append b';' p rest h,
      place,
      found,
      inside,
      take-append p (b';' ∷ rest),
      drop_past p b';' rest,
    )

next_piece_last : (p : Bytes) → Lacks b';' p → length p < u32_mod → next_piece p ≡ (p, [])
unfolding next_piece
next_piece_last p h fits =
    let outside : ltb 4294967295 (length p) ≡ false = ground arith in
    rw (find-Lacks b';' p h, outside)

-- One cookie between optional blanks.
add_cookie_padded :
    (j : Jar) (pad n v : Bytes)
    → All (λ c. isspace c ≡ true) pad
    → IsCookie (n, v)
    → suc (length n) < u32_mod
    → add_cookie j (trim (pad ++ (n ++ b'=' ∷ v))) ≡ with_cookie j n v
add_cookie_padded j pad n v blank h fits =
    ap (add_cookie j) (trim_padded pad (n ++ b'=' ∷ v) blank h.2 h.3)
    ∙ add_cookie_pair j n v h.0 fits

cookie_rounds_nil : (fuel : ℕ) (j : Jar) → cookie_rounds fuel [] j ≡ some j
unfolding cookie_rounds
cookie_rounds_nil zero j = refl
cookie_rounds_nil (suc fuel) j = refl

-- A round whose piece is known.
cookie_rounds_piece :
    (fuel : ℕ) (s ck rest : Bytes) (j j' : Jar)
    → s ≢ []
    → next_piece s ≡ (ck, rest)
    → add_cookie j (trim ck) ≡ j'
    → cookie_rounds (suc fuel) s j ≡ cookie_rounds fuel rest j'
cookie_rounds_piece fuel s ck rest j j' ne e f =
    cookie_rounds_step fuel s j ne
    ∙ ap (λ (pc : Bytes × Bytes). cookie_rounds fuel pc.1 (add_cookie j (trim pc.0))) e
    ∙ ap (cookie_rounds fuel rest) f

pair_ne : (pad n v t : Bytes) → pad ++ (n ++ b'=' ∷ v) ++ t ≢ []
pair_ne pad n v t k = omega (
  arith,
  ap length k,
  length-append (pad ++ (n ++ b'=' ∷ v)) t,
  length-append pad (n ++ b'=' ∷ v),
  length-append n (b'=' ∷ v),
)

-- The rounds on a joined text, behind blanks.
cookie_rounds-fill :
    (fuel : ℕ) (pad : Bytes) (cs : List (Bytes × Bytes)) (j : Jar)
    → All (λ c. isspace c ≡ true) pad
    → Lacks b';' pad
    → cs ≢ []
    → All IsCookie cs
    → length (pad ++ cookie_text cs) < fuel
    → length (pad ++ cookie_text cs) < u32_mod
    → cookie_rounds fuel (pad ++ cookie_text cs) j ≡ some (fill_jar j cs)
cookie_rounds-fill fuel pad [] j blank sep ne h fits small = absurd (ne refl)
cookie_rounds-fill zero pad (c ∷ cs) j blank sep ne h fits small = elim fits [ ]
cookie_rounds-fill (suc fuel) pad ((n, v) ∷ []) j blank sep ne h fits small =
    let p = n ++ b'=' ∷ v in
    let clean : Lacks b';' (pad ++ p) = All-append (λ c. c ≢ b';') pad p sep h.0.1 in
    cookie_rounds_piece fuel (pad ++ p) (pad ++ p) [] j (with_cookie j n v)
      (λ k. pair_ne pad n v [] (append-nil (pad ++ p) ∙ k)) (next_piece_last (pad ++ p) clean small)
      (add_cookie_padded j pad n v blank h.0
        (omega (arith, length-append pad p, length-append n (b'=' ∷ v))))
    ∙ cookie_rounds_nil fuel (with_cookie j n v)
cookie_rounds-fill (suc fuel) pad ((n, v) ∷ c ∷ cs) j blank sep ne h fits small =
    let p = n ++ b'=' ∷ v in
    let rest = b' ' ∷ cookie_text (c ∷ cs) in
    let clean : Lacks b';' (pad ++ p) = All-append (λ c. c ≢ b';') pad p sep h.0.1 in
    let sizes = length-append pad (p ++ b';' ∷ rest) in
    let sizes' = length-append p (b';' ∷ rest) in
    let short : length n < length p = omega (arith, length-append n (b'=' ∷ v)) in
    ap (λ s. cookie_rounds (suc fuel) s j) (sym (append_assoc pad p (b';' ∷ rest)))
    ∙ cookie_rounds_piece fuel ((pad ++ p) ++ b';' ∷ rest) (pad ++ p) rest j (with_cookie j n v)
        (pair_ne pad n v (b';' ∷ rest))
        (next_piece_more (pad ++ p) rest clean (omega (arith, sizes, sizes', length-append pad p)))
        (add_cookie_padded j pad n v blank h.0 (omega (arith, sizes, sizes')))
    ∙ cookie_rounds-fill fuel (b' ' ∷ []) (c ∷ cs) (with_cookie j n v) (refl, tt) (omega arith)
        (λ k. cc) h.1 (omega (arith, sizes, sizes')) (omega (arith, sizes, sizes'))

-- One or more cookies joined by "; " to a text shorter than 2^32 are all found, in order, with
-- their names and values, if no name holds an equals sign and no cookie a semicolon or a space
-- at an end; the session id is the value of the last one named SolusekSID.
pub parse_cookies-text :
    (cs : List (Bytes × Bytes))
    → cs ≢ []
    → All IsCookie cs
    → length (cookie_text cs) < u32_mod
    → parse_cookies (cookie_text cs) ≡ some (fill_jar (record { cookies = []; sid = [] }) cs)
unfolding parse_cookies
parse_cookies-text cs ne h small =
    cookie_rounds-fill (suc (length (cookie_text cs))) [] cs (record { cookies = []; sid = [] }) tt
      tt ne h (omega arith) small
