-- ===== src/Client/Request/Served.antt =====
-- A request of `CClient` as `CNode::run` takes it.
use solusek.Base.{
  ℕ, ◌≤◌, ◌<◌, if◌then◌else◌, Bool-cases, true, false, List, [], ◌∷◌, ◌++◌, map, ◌≡◌, ◌≢◌, refl,
  sym, ap, ◌∙◌, subst, arith, Option, none, some, inl, inr, Bytes, codes, c_str-Lacks, Lacks,
  length, length-append, append_assoc, append-nil, reverse, u32_of_int, str_eq,
}
use solusek.Decimal.{is_digit, print_nat, atoi}
use solusek.Decimal.RoundTrip.{IsDigits, print_nat-IsDigits, print_nat-Lacks, atoi-print_nat}
use solusek.Text.{isspace, trim, strtolower}
use solusek.Text.Trim.{Starts, Ends, reverse-All, trim_padded}
use solusek.Model.{VarVal, Endpoint, Request}
use solusek.StringMap.{StringMap}
use solusek.Socket.{Input, Output, stream}
use solusek.Files.{Log}
use solusek.Server.{Server, get_endpoint}
use solusek.Node.Header.Lines.{block}
use solusek.Node.Header.Parse.{
  Head, IsHead, head_text, with_query, query_text, field_line, field_value,
}
use solusek.Node.Cookies.{Jar}
use solusek.Node.Run.Gets.{TextOf, no_length, with_length, announced, IsSentWith}
use solusek.Node.Run.{Outside, Ran, read_cookies, respond, run, value_or_empty}
use solusek.Node.Run.Answer.{run-Called, request_meant}
use solusek.Client.{Client}
use solusek.Client.Url.{Target}
use solusek.Client.Request.{header_lines, length_line, request_head}

abbrev pub header_fields : StringMap → List VarVal
header_fields [] = []
header_fields ((name, val) ∷ m) = record { var = name; val = b' ' ∷ val } ∷ header_fields m

abbrev pub length_fields : Bytes → List VarVal
length_fields [] = []
length_fields (b ∷ body) =
    record { var = codes "Content-length"; val = b' ' ∷ print_nat (length (b ∷ body)) } ∷ []

-- The request that the client means, with the path `p` and the query `q`.
abbrev pub sent_head : Client → Target → Bytes → Option Bytes → Bytes → Head
sent_head c t p q body = record {
  method = c.method;
  path = p;
  query = q;
  version = codes "HTTP/1.1";
  fields =
      record { var = codes "Host"; val = b' ' ∷ t.host }
      ∷ (header_fields c.additional_headers ++ length_fields body);
}

block-length_fields :
    (body rest : Bytes)
    → block (map field_line (length_fields body)) rest ≡ length_line body ++ (b'\r' ∷ b'\n' ∷ rest)
unfolding length_line
block-length_fields [] rest = refl
block-length_fields (b ∷ body) rest = simp append_assoc

block-header_fields :
    (m : StringMap) (body rest : Bytes)
    → block (map field_line (header_fields m ++ length_fields body)) rest
      ≡ header_lines m ++ (length_line body ++ (b'\r' ∷ b'\n' ∷ rest))
unfolding header_lines
block-header_fields [] body rest = block-length_fields body rest
block-header_fields ((name, val) ∷ m) body rest =
    rw (block-header_fields m body rest) (simp append_assoc)

-- The bytes of a request are those of the head that it means, with the body behind.
sent_text :
    (c : Client) (t : Target) (p : Bytes) (q : Option Bytes) (body : Bytes)
    → t.path ≡ with_query p q
    → request_head c t body ++ body ≡ head_text (sent_head c t p q body) body
unfolding request_head
sent_text c t p q body e =
    rw (block-header_fields c.additional_headers body body) (rw e (simp append_assoc))

field_value-append :
    (name : Bytes) (hs ls : List VarVal)
    → field_value name hs ≡ none
    → field_value name (hs ++ ls) ≡ field_value name ls
field_value-append name [] ls h = refl
field_value-append name (f ∷ hs) ls h =
    elim (Bool-cases (str_eq (strtolower f.var) (strtolower name))) [
      | inl e ↦ absurd (
          some-ne-none
            (subst (λ t. (if t then some (trim f.val) else field_value name hs) ≡ none) e h))
      | inr e ↦ rw e (
          field_value-append name hs ls
            (subst (λ t. (if t then some (trim f.val) else field_value name hs) ≡ none) e h))
    ]
  where
    some-ne-none : {v : Bytes} → some v ≡ none → ⊥
    some-ne-none e = cc

digit-isspace : (c : ℕ) → is_digit c ≡ true → isspace c ≡ false
digit-isspace c h = ground arith

digits-Starts : (s : Bytes) → IsDigits s → Starts s
digits-Starts [] h = tt
digits-Starts (c ∷ s) h = digit-isspace c h.0

pub trim-print_nat : (n : ℕ) → trim (b' ' ∷ print_nat n) ≡ print_nat n
trim-print_nat n =
    let d = print_nat-IsDigits n in
    trim_padded (b' ' ∷ []) (print_nat n) (ground arith, tt) (digits-Starts (print_nat n) d)
      (digits-Starts (reverse (print_nat n)) (reverse-All (λ c. is_digit c ≡ true) (print_nat n) d))

announced-print_nat : (n : ℕ) → n < 2147483648 → announced (print_nat n) ≡ n
announced-print_nat n small =
    let whole = c_str-Lacks (print_nat n) (print_nat-Lacks 0 n (ground arith)) in
    let read = ap atoi (sym (append-nil (print_nat n))) ∙ atoi-print_nat n [] small tt in
    ap u32_of_int (ap atoi whole ∙ read) ∙ omega arith

-- What is asked of the headers that an application added.
abbrev pub IsUnmeasured : Client → Type 0
IsUnmeasured c = field_value (codes "content-length") (header_fields c.additional_headers) ≡ none

-- The length that the server finds.
abbrev length_value : Bytes → Option Bytes
length_value [] = none
length_value (b ∷ body) = some (print_nat (length (b ∷ body)))

length_fields-value :
    (body : Bytes) → field_value (codes "content-length") (length_fields body) ≡ length_value body
unfolding strtolower
length_fields-value [] = refl
length_fields-value (b ∷ body) = ap some (trim-print_nat (length (b ∷ body)))

sent_head-value :
    (c : Client) (t : Target) (p : Bytes) (q : Option Bytes) (body : Bytes)
    → IsUnmeasured c
    → field_value (codes "content-length") (sent_head c t p q body).fields ≡ length_value body
unfolding strtolower
sent_head-value c t p q body h =
    field_value-append (codes "content-length") (header_fields c.additional_headers)
      (length_fields body) h
    ∙ length_fields-value body

measured :
    (body v : Bytes)
    → length body < 2147483648
    → length_value body ≡ some v
    → announced v ≡ length body
measured [] v small e = absurd (cc)
measured (b ∷ body) v small e =
    ap (λ o. announced (value_or_empty o)) (sym e) ∙ announced-print_nat (length (b ∷ body)) small

split_all : (xs ys zs : Bytes) → xs ≡ ys ++ zs → length xs ≤ length ys → ys ≡ xs
split_all xs ys [] e le = sym (e ∙ append-nil ys)
split_all xs ys (z ∷ zs) e le = absurd (omega (arith, ap length e, length-append ys (z ∷ zs)))

text_whole :
    (head : Head) (body text : Bytes)
    → length body < 2147483648
    → field_value (codes "content-length") head.fields ≡ length_value body
    → TextOf head body text
    → text ≡ body
text_whole head [] _ small e (no_length h) = refl
text_whole head (b ∷ body) _ small e (no_length h) = absurd (cc)
text_whole head body text small e (with_length v p left f split le lt nil) =
    let same = measured body v small (sym e ∙ f) in
    split_all body p left split (omega (arith, same))

-- One call of the callback with what the client was given, and its response written.
pub record Serves (w : Outside) (s : Server) (l : Log) (o : Output) (c : Client) (t : Target)
    (head : Head) (body : Bytes) (ep : Endpoint) (result : Option Ran) : Type 0 where
  pub jar : Jar
  pub cookies : read_cookies (field_value (codes "Cookie") head.fields) ≡ some jar
  pub request : Request
  pub same_body : request.body ≡ body
  pub same_host : request.host ≡ t.host
  pub same_query : request.query_string ≡ query_text head.query
  pub same_cookies : (request.cookies ≡ jar.cookies) × (request.sid ≡ jar.sid)
  pub is :
      let answer = w.call ep.callback s request in result ≡ some (respond w answer.0 l answer.1 o)

host_value_lem :
    (host : Bytes) (fs : List VarVal)
    → Starts host
    → Ends host
    → value_or_empty
        (field_value (codes "Host") (record { var = codes "Host"; val = b' ' ∷ host } ∷ fs))
      ≡ host
unfolding strtolower
host_value_lem host fs h k = trim_padded (b' ' ∷ []) host (ground arith, tt) h k

-- A request as the client writes it, with a well-formed head, a path, no Content-Length among the
-- headers that were added, a host with no space at its ends and a body below 2^31 bytes with no NUL
-- byte, is answered by the endpoint registered for its path and method: however the bytes arrive,
-- and with more fuel than bytes, the callback is called once, with the body, the host, the query
-- and the cookies that were sent, and its response is what is written.
pub request_head-Serves :
    (reads fuel : ℕ) (w : Outside) (s : Server) (l : Log) (i : Input) (o : Output) (c : Client)
    (t : Target) (p : Bytes) (q : Option Bytes) (body : Bytes) (ep : Endpoint)
    → t.path ≡ with_query p q
    → IsHead (sent_head c t p q body)
    → p ≢ []
    → IsUnmeasured c
    → Starts t.host
    → Ends t.host
    → length body < 2147483648
    → Lacks 0 body
    → stream i ≡ request_head c t body ++ body
    → length (stream i) < reads
    → get_endpoint s p c.method ≡ some ep
    → Serves w s l o c t (sent_head c t p q body) body ep (run reads fuel w s l i o)
request_head-Serves reads fuel w s l i o c t p q body ep path h ne free starts ends small nul e fits
      found =
    let head = sent_head c t p q body in
    let value = sent_head-value c t p q body free in
    let sent : IsSentWith head body = λ v f.
      (let same = measured body v small (sym value ∙ f) in
        (omega (arith, same), omega (arith, same), nul)) in
    let r =
      run-Called reads fuel w s l i o head body ep h ne sent (e ∙ sent_text c t p q body path) fits
        found in
    record {
      jar = r.jar;
      cookies = r.cookies;
      request = request_meant head r.jar r.text;
      same_body = text_whole head body r.text small value r.of;
      same_host =
          host_value_lem t.host (header_fields c.additional_headers ++ length_fields body) starts
            ends;
      same_query = refl;
      same_cookies = (refl, refl);
      is = r.is;
    }
