-- ===== src/Node/Run/Gets.antt =====
-- From the connection to the lookup of the endpoint.
use solusek.Base.{
  ℕ, ◌+◌, ◌≤◌, ◌<◌, false, List, [], ◌∷◌, ◌++◌, ◌≡◌, ◌≢◌, refl, sym, ap, ◌∙◌, subst, arith, Option,
  none, some, inl, inr, Option-cases, map, length-append, Bytes, codes, c_str, Lacks, is_empty,
  length, u32_mod, u32_of_int,
}
use solusek.Decimal.{atoi}
use solusek.Socket.{Input, Output, stream}
use solusek.Files.{Log}
use solusek.Server.{Server, get_endpoint}
use solusek.Node.Header.{HeaderRead}
use solusek.Node.Header.Lines.{IsText, block}
use solusek.Node.Header.Parse.{
  Head, IsHead, head_text, with_query, first_line, field_line, field_value, pushed, request_line,
  get_header-pushed, read_header-Head,
}
use solusek.Node.Body.{BodyRead, body, default_chunk_size, read_body}
use solusek.Node.Body.Total.{ReadsBody, short, full, read_body-ReadsBody, read_body-none}
use solusek.Node.Run.{Outside, run_found, run_request, run_body, run_header, run}

-- The length that a request announces.
abbrev pub announced : Bytes → ℕ
announced v = u32_of_int (atoi (c_str v))

-- The body of a request whose head is followed by `rest`: nothing if no length is announced, else
-- the front of `rest` up to the first read that reaches the length.
pub data TextOf (head : Head) (rest : Bytes) : Bytes → Type 0 where
  no_length : field_value (codes "content-length") head.fields ≡ none → TextOf head rest []
  with_length :
      (v p left : Bytes)
      → field_value (codes "content-length") head.fields ≡ some v
      → rest ≡ p ++ left
      → announced v ≤ length p
      → length p < announced v + default_chunk_size
      → (announced v ≡ 0 → length p ≡ 0)
      → TextOf head rest p

-- A length that is announced is small enough for the 32-bit counter, and the bytes are sent, with
-- no NUL among them.
abbrev pub IsSentWith : Head → Bytes → Type 0
IsSentWith head rest =
    (v : Bytes)
    → field_value (codes "content-length") head.fields ≡ some v
    → (announced v + default_chunk_size ≤ u32_mod) × (announced v ≤ length rest) × Lacks 0 rest

pub record ReadsText (head : Head) (rest : Bytes) (r : BodyRead) : Type 0 where
  text : Bytes
  left : Input
  is : r ≡ body text left
  of : TextOf head rest text

reads_text :
    (head : Head) (rest v : Bytes) (r : BodyRead)
    → field_value (codes "content-length") head.fields ≡ some v
    → announced v ≤ length rest
    → ReadsBody rest (announced v) [] r
    → ReadsText head rest r
reads_text head rest v _ e enough (short h) = absurd (ground arith)
reads_text head rest v _ e enough (full p i split le lt nil) = record {
  text = p;
  left = i;
  is = refl;
  of = with_length v p (stream i) e split le lt nil;
}

read_body-ReadsText :
    (fuel : ℕ) (head : Head) (rest : Bytes) (i : Input)
    → IsHead head
    → IsSentWith head rest
    → stream i ≡ rest
    → length rest < fuel
    → ReadsText head rest (read_body fuel (pushed head) i)
read_body-ReadsText fuel head rest i h sent e fits =
    let same = get_header-pushed head (codes "content-length") h (ground arith) (ground arith) in
    elim (Option-cases (field_value (codes "content-length") head.fields)) [
      | inl f ↦ record {
        text = [];
        left = i;
        is = read_body-none fuel (pushed head) i (same ∙ f);
        of = no_length f;
      }
      | inr (v, f) ↦
          let (small, enough, nul) = sent v f in
          reads_text head rest v _ f enough (
            subst (λ t. ReadsBody t (announced v) [] (read_body fuel (pushed head) i)) e
              (read_body-ReadsBody fuel (pushed head) v i (same ∙ f) (subst (Lacks 0) (sym e) nul)
                small (subst (λ t. length t < fuel) (sym e) fits)))
    ]

IsText-left : (a b : Bytes) → IsText (a ++ b) → IsText a
IsText-left [] b h = tt
IsText-left (x ∷ a) b h = (h.0, IsText-left a b h.1)

IsText-right : (a b : Bytes) → IsText (a ++ b) → IsText b
IsText-right [] b h = h
IsText-right (x ∷ a) b h = IsText-right a b h.1

c_str-text : (s : Bytes) → IsText s → c_str s ≡ s
c_str-text [] h = refl
c_str-text (x ∷ s) h = ground (arith, c_str-text s h.1)

path-IsText : (p : Bytes) (q : Option Bytes) (t : Bytes) → IsText (with_query p q ++ t) → IsText p
path-IsText p none t h = IsText-left p t h
path-IsText p (some q) t h = IsText-left p (b'?' ∷ q) (IsText-left (p ++ b'?' ∷ q) t h)

is_empty-ne : (s : Bytes) → s ≢ [] → is_empty s ≡ false
is_empty-ne [] h = absurd (h refl)
is_empty-ne (x ∷ s) h = refl

pub c_str-path : (head : Head) → IsHead head → c_str head.path ≡ head.path
c_str-path head h =
    c_str-text head.path
      (path-IsText head.path head.query (b' ' ∷ head.version) (IsText-right head.method _ h.text).1)

length-block : (ls : List Bytes) (rest : Bytes) → length rest ≤ length (block ls rest)
length-block [] rest = omega arith
length-block (l ∷ ls) rest =
    omega (arith, length-append l (b'\r' ∷ b'\n' ∷ block ls rest), length-block ls rest)

-- Up to the lookup: what was sent is read back.
pub record Gets (reads fuel : ℕ) (w : Outside) (s : Server) (l : Log) (i : Input) (o : Output)
    (head : Head) (rest : Bytes) : Type 0 where
  pub text : Bytes
  pub of : TextOf head rest text
  pub is :
      run reads fuel w s l i o
      ≡ run_found fuel w s l
          (record { headers = pushed head; line = request_line head; text = text })
          o
          (get_endpoint s head.path head.method)

found_path :
    (fuel : ℕ) (w : Outside) (s : Server) (l : Log) (o : Output) (head : Head) (text : Bytes)
    → IsHead head
    → head.path ≢ []
    → run_request fuel w s l o
        (record { headers = pushed head; line = request_line head; text = text })
      ≡ run_found fuel w s l
          (record { headers = pushed head; line = request_line head; text = text })
          o
          (get_endpoint s head.path head.method)
unfolding run_request
found_path fuel w s l o head text h ne =
    let p = c_str-path head h in
    let m = c_str-text head.method (IsText-left head.method _ h.text) in
    rw (is_empty-ne head.path ne, run_request) (rw (p, m) refl)

pub run-Gets :
    (reads fuel : ℕ) (w : Outside) (s : Server) (l : Log) (i : Input) (o : Output) (head : Head)
    (rest : Bytes)
    → IsHead head
    → head.path ≢ []
    → IsSentWith head rest
    → stream i ≡ head_text head rest
    → length (stream i) < reads
    → Gets reads fuel w s l i o head rest
unfolding run run_header run_body
run-Gets reads fuel w s l i o head rest h ne sent e fits =
    let got = read_header-Head reads i head rest h e fits in
    let r = read_body-ReadsText reads head rest got.left h sent got.behind (
      omega
        (arith, ap length e, length-block (first_line head ∷ map field_line head.fields) rest)) in
    record {
      text = r.text;
      of = r.of;
      is =
          ap (λ (k : HeaderRead). run_header reads fuel w s l o k) got.is
          ∙ ap (λ (k : BodyRead). run_body fuel w s l o (pushed head) (request_line head) k) r.is
          ∙ found_path fuel w s l o head r.text h ne;
    }
