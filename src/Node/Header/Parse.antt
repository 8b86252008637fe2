-- ===== src/Node/Header/Parse.antt =====
-- `readHeader` on requests as a client writes them, and `getHeader` on what it read.
use solusek.Base.{
  ℕ, ◌<◌, false, List, [], ◌∷◌, ◌++◌, map, ◌≡◌, ◌≢◌, refl, sym, ap, ◌∙◌, subst, arith, Option, none,
  some, inl, inr, if◌then◌else◌, Bytes, Lacks, length, All, str_eq, str_eq_iff, Bool-cases,
  find-append, find-Lacks, take-append, drop_past, All-append,
}
use solusek.Model.{VarVal}
use solusek.Text.{strtolower, trim, lower}
use solusek.Text.Case.{strtolower_idem, strtolower-Lacks}
use solusek.Socket.{Input, stream}
use solusek.Node.Header.Lines.{
  header_loop-Agrees, header_bytes, header_bytes-block, Agrees, block, IsText, IsLine,
}
use solusek.Node.Header.{
  RequestLine, parse_line, parse_request_line, at_start, header_loop, read_header, HeaderRead,
  header, find_header, get_header, split_query, with_request_line, first_header, after_loop,
}

-- The head of a request as it is meant.
pub record Head : Type 0 where
  pub method : Bytes
  pub path : Bytes
  pub query : Option Bytes
  pub version : Bytes
  pub fields : List VarVal

abbrev pub with_query : Bytes → Option Bytes → Bytes
with_query p none = p
with_query p (some q) = p ++ b'?' ∷ q

abbrev pub first_line : Head → Bytes
first_line r = r.method ++ (b' ' ∷ (with_query r.path r.query ++ (b' ' ∷ r.version)))

abbrev pub field_line : VarVal → Bytes
field_line f = f.var ++ (b':' ∷ f.val)

abbrev pub head_text : Head → Bytes → Bytes
head_text r rest = block (first_line r ∷ map field_line r.fields) rest

abbrev pub query_text : Option Bytes → Bytes
query_text none = []
query_text (some q) = q

pub record IsHead (r : Head) : Type 0 where
  pub method_word : Lacks b' ' r.method
  pub path_word : Lacks b' ' r.path
  pub path_end : Lacks b'?' r.path
  pub query_word : Lacks b' ' (query_text r.query)
  pub no_colon : Lacks b':' (first_line r)
  pub text : IsText (first_line r)
  pub names : All (λ f. Lacks b':' f.var) r.fields
  pub lines : All IsLine (map field_line r.fields)

-- The value that a reader of the request takes for a name, in any case: the first, trimmed.
abbrev pub field_value : Bytes → List VarVal → Option Bytes
field_value name [] = none
field_value name (f ∷ fs) =
    if str_eq (strtolower f.var) (strtolower name) then some (trim f.val) else field_value name fs

parse_line-field :
    (f : VarVal)
    → Lacks b':' f.var
    → parse_line (field_line f) ≡ record { var = strtolower f.var; val = trim f.val }
unfolding parse_line
parse_line-field f h = rw (
  find-append b':' f.var f.val h,
  parse_line,
  take-append f.var (b':' ∷ f.val),
  drop_past f.var b':' f.val,
)

parse_line-plain : (l : Bytes) → Lacks b':' l → parse_line l ≡ record { var = l; val = [] }
unfolding parse_line
parse_line-plain l h = rw (find-Lacks b':' l h, parse_line)

with_query-Lacks :
    (b : ℕ) (p : Bytes) (q : Option Bytes)
    → b ≢ b'?'
    → Lacks b p
    → Lacks b (query_text q)
    → Lacks b (with_query p q)
with_query-Lacks b p none ne h k = h
with_query-Lacks b p (some q) ne h k = All-append (λ c. c ≢ b) p (b'?' ∷ q) h (λ e. ne (sym e), k)

abbrev pub request_line : Head → RequestLine
request_line r = record {
  method = r.method;
  path = r.path;
  query_string = query_text r.query;
  protocol_version = r.version;
}

split_query-with_query :
    (m p v : Bytes) (q : Option Bytes)
    → Lacks b'?' p
    → split_query m (with_query p q) v
      ≡ record { method = m; path = p; query_string = query_text q; protocol_version = v }
unfolding split_query
split_query-with_query m p v none h = rw (find-Lacks b'?' p h, split_query)
split_query-with_query m p v (some q) h =
    rw (find-append b'?' p q h, split_query, take-append p (b'?' ∷ q), drop_past p b'?' q)

pub parse_request_line-parts :
    (r : Head) → IsHead r → parse_request_line (first_line r) ≡ some (request_line r)
unfolding parse_request_line
parse_request_line-parts r h =
    let target = with_query r.path r.query in
    let behind = target ++ b' ' ∷ r.version in
    let e =
      find-append b' ' target r.version
        (with_query-Lacks b' ' r.path r.query (omega arith) h.path_word h.query_word) in
    rw
      (
        find-append b' ' r.method behind h.method_word,
        parse_request_line,
        drop_past r.method b' ' behind,
        take-append r.method (b' ' ∷ behind),
      )
      (rw (e, take-append target (b' ' ∷ r.version), drop_past target b' ' r.version)
        (ap some (split_query-with_query r.method r.path r.version r.query h.path_end)))

-- What the loop pushed for a head.
abbrev pub pushed : Head → List VarVal
pushed r =
    parse_line (first_line r) ∷ (map parse_line (map field_line r.fields) ++ parse_line [] ∷ [])

not-Lacks : (c : ℕ) (s t : Bytes) → Lacks c (s ++ c ∷ t) → ⊥
not-Lacks c [] t h = h.0 refl
not-Lacks c (x ∷ s) t h = not-Lacks c s t h.1

strtolower-append : (s t : Bytes) → strtolower (s ++ t) ≡ strtolower s ++ strtolower t
unfolding strtolower
strtolower-append [] t = refl
strtolower-append (x ∷ s) t = ap (λ k. lower x ∷ k) (strtolower-append s t)

-- A line with a blank is no header name.
blank-ne :
    (s t name : Bytes)
    → Lacks b' ' name
    → str_eq (strtolower (s ++ b' ' ∷ t)) (strtolower name) ≡ false
blank-ne s t name h = elim (Bool-cases (str_eq (strtolower (s ++ b' ' ∷ t)) (strtolower name))) [
  | inl e ↦ absurd (
      not-Lacks b' ' (strtolower s) (strtolower t) (
        subst (Lacks b' ')
          (sym ((str_eq_iff (strtolower (s ++ b' ' ∷ t)) (strtolower name)).0 e)
            ∙ strtolower-append s (b' ' ∷ t)
            ∙ (unfold strtolower in refl))
          (strtolower-Lacks b' ' name (refl) h)))
  | inr e ↦ e
]

find_header-fields :
    (name : Bytes) (fs : List VarVal)
    → name ≢ []
    → All (λ f. Lacks b':' f.var) fs
    → find_header (strtolower name) (map parse_line (map field_line fs) ++ parse_line [] ∷ [])
      ≡ field_value name fs
unfolding find_header
find_header-fields [] [] ne h = absurd (ne refl)
find_header-fields (c ∷ name) [] ne h = unfold parse_line strtolower in refl
find_header-fields name (f ∷ fs) ne h =
    rw (parse_line-field f h.0, strtolower_idem f.var, find_header-fields name fs ne h.1)

find_header-pushed :
    (r : Head) (name : Bytes)
    → IsHead r
    → Lacks b' ' name
    → name ≢ []
    → find_header (strtolower name) (pushed r) ≡ field_value name r.fields
unfolding find_header
find_header-pushed r name h word ne =
    rw
      (
        parse_line-plain (first_line r) h.no_colon,
        blank-ne r.method (with_query r.path r.query ++ (b' ' ∷ r.version)) name word,
      )
      (find_header-fields name r.fields ne h.names)

-- `getHeader` on the headers of a well-formed head gives the trimmed value of the first field with
-- that name in any case, for a name with no blank that is not empty.
pub get_header-pushed :
    (r : Head) (name : Bytes)
    → IsHead r
    → Lacks b' ' name
    → name ≢ []
    → get_header (pushed r) name ≡ field_value name r.fields
unfolding get_header
get_header-pushed r name h word ne =
    ap (λ t. find_header t (pushed r)) (strtolower_idem name) ∙ find_header-pushed r name h word ne

pub record ReadsHead (r : Head) (rest : Bytes) (result : HeaderRead) : Type 0 where
  pub left : Input
  pub is : result ≡ header (pushed r) (request_line r) left
  pub behind : stream left ≡ rest

-- A well-formed head, with no colon in its request line, is read into its parts, however its bytes
-- arrive and with more fuel than bytes, and nothing behind it is read.
pub read_header-Head :
    (fuel : ℕ) (i : Input) (r : Head) (rest : Bytes)
    → IsHead r
    → stream i ≡ head_text r rest
    → length (stream i) < fuel
    → ReadsHead r rest (read_header fuel i)
unfolding read_header first_header
read_header-Head fuel i r rest h e fits =
    let loop = header_loop-Agrees fuel at_start i (stream i) refl fits in
    let line : IsLine (first_line r) = (h.text, ne) in
    let block_read =
      header_bytes-block (first_line r) (map field_line r.fields) rest line h.lines in
    let (left, is, behind) =
      subst (λ o. Agrees o (header_loop fuel at_start i))
        (ap (header_bytes at_start) e ∙ block_read) loop in
    record {
      left = left;
      is =
          ap (λ k. after_loop k) is
          ∙ ap (λ o. with_request_line (pushed r) o left)
              (ap (λ v. parse_request_line v.var) (parse_line-plain (first_line r) h.no_colon)
                ∙ parse_request_line-parts r h);
      behind = behind;
    }
  where
    ne : first_line r ≢ []
    ne k = not-Lacks b' ' r.method (with_query r.path r.query ++ (b' ' ∷ r.version)) (rw k tt)
