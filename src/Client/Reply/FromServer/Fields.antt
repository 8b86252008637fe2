-- ===== src/Client/Reply/FromServer/Fields.antt =====
-- The text of a response of `CNode::writeResponse`, line by line, and what a client keeps of it.
use solusek.Base.{
  ◌%◌, false, List, [], ◌∷◌, ◌++◌, map, ◌≡◌, ◌≢◌, refl, sym, ap, ◌∙◌, arith, if◌then◌else◌, Bytes,
  codes, length, concat, All, All-append, Lacks, append_assoc, append-nil, is_empty, str_eq,
  u32_mod,
}
use solusek.Decimal.{print_nat, print_int}
use solusek.Text.{trim, strtolower, ltrim, rtrim}
use solusek.Model.{VarVal, Cookie, Response, get_code_description}
use solusek.StringMap.{StringMap, map_at}
use solusek.StringMap.Laws.{map_at-set}
use solusek.Node.Header.Lines.{block}
use solusek.Node.Header.Parse.{field_line}
use solusek.Node.Response.{
  date_text, status_pieces, sid_pieces, path_pieces, cookie_pieces, last_pieces, response_pieces,
}
use solusek.Node.Response.Sent.{response_text}
use solusek.Client.Reply.{keep_header}
use solusek.Client.Reply.Lines.{keep_all, map_at-keep_header}

abbrev pub status_line : Response → Bytes
status_line r = codes "HTTP/1.1 " ++ (print_int r.code ++ (b' ' ∷ get_code_description r.code))

abbrev path_text : Bytes → Bytes
path_text path = if is_empty path then [] else codes "; Path=" ++ path

abbrev sid_fields : Bytes → List VarVal
sid_fields sid =
    if is_empty sid
    then []
    else record {
      var = codes "Set-Cookie";
      val = codes " SolusekSID=" ++ (sid ++ codes "; SameSite=Strict; Path=/");
    }
      ∷ []

abbrev cookie_value : Cookie → Bytes
cookie_value c =
    b' ' ∷ (c.name ++ (b'=' ∷ (c.value ++ (codes "; SameSite=Strict" ++ path_text c.path))))

abbrev cookie_fields : List Cookie → List VarVal
cookie_fields [] = []
cookie_fields (c ∷ cs) =
    record { var = codes "Set-Cookie"; val = cookie_value c } ∷ cookie_fields cs

abbrev last_fields : List VarVal
last_fields =
    record { var = codes "Server"; val = codes " Solusek/1.0 (Linux)" }
    ∷ record { var = codes "Connection"; val = codes " close" }
    ∷ []

-- The header lines of a response.
abbrev pub response_fields : Bytes → Response → List VarVal
response_fields asctime r =
    record { var = codes "Date"; val = b' ' ∷ date_text asctime r }
    ∷ record { var = codes "Content-Type"; val = b' ' ∷ r.content_type }
    ∷ record { var = codes "Content-Length"; val = b' ' ∷ print_nat (length r.body % u32_mod) }
    ∷ record { var = codes "Last-Modified"; val = b' ' ∷ date_text asctime r }
    ∷ (sid_fields r.sid ++ (cookie_fields r.cookies ++ last_fields))

concat-append : (ps qs : List Bytes) → concat (ps ++ qs) ≡ concat ps ++ concat qs
concat-append [] qs = refl
concat-append (p ∷ ps) qs =
    ap (λ t. p ++ t) (concat-append ps qs) ∙ sym (append_assoc p (concat ps) (concat qs))

block-last : (body : Bytes) → concat (last_pieces body) ≡ block (map field_line last_fields) body
block-last body = simp append-nil

block-cookies :
    (cs : List Cookie) (body : Bytes)
    → concat (cookie_pieces cs) ++ concat (last_pieces body)
      ≡ block (map field_line (cookie_fields cs ++ last_fields)) body
unfolding cookie_pieces path_pieces
block-cookies [] body = block-last body
block-cookies (c ∷ cs) body = rw (sym (block-cookies cs body)) (go c.path)
  where
    go :
        (path : Bytes)
        → concat (
              codes "Set-Cookie: "
              ∷ c.name
              ∷ codes "="
              ∷ c.value
              ∷ codes "; SameSite=Strict"
              ∷ (path_pieces path ++ (b'\r' ∷ b'\n' ∷ []) ∷ cookie_pieces cs))
            ++ concat (last_pieces body)
          ≡ field_line (record {
            var = codes "Set-Cookie";
            val =
                b' '
                ∷ (c.name ++ (b'=' ∷ (c.value ++ (codes "; SameSite=Strict" ++ path_text path))));
          })
            ++ (b'\r' ∷ b'\n' ∷ (concat (cookie_pieces cs) ++ concat (last_pieces body)))
    go [] = simp append_assoc
    go (x ∷ path) = simp append_assoc

block-sid :
    (sid : Bytes) (fs : List VarVal) (body : Bytes)
    → concat (sid_pieces sid) ++ block (map field_line fs) body
      ≡ block (map field_line (sid_fields sid ++ fs)) body
unfolding sid_pieces
block-sid [] fs body = refl
block-sid (x ∷ sid) fs body = simp append_assoc

-- The text of a response, line by line.
pub response_text-block :
    (asctime : Bytes) (r : Response)
    → response_text asctime r
      ≡ block (status_line r ∷ map field_line (response_fields asctime r)) r.body
unfolding response_pieces status_pieces
response_text-block asctime r =
    concat-append (status_pieces asctime r)
      (sid_pieces r.sid ++ (cookie_pieces r.cookies ++ last_pieces r.body))
    ∙ ap (λ t. concat (status_pieces asctime r) ++ t)
        (concat-append (sid_pieces r.sid) (cookie_pieces r.cookies ++ last_pieces r.body)
          ∙ ap (λ t. concat (sid_pieces r.sid) ++ t)
              (concat-append (cookie_pieces r.cookies) (last_pieces r.body)
                ∙ block-cookies r.cookies r.body)
          ∙ block-sid r.sid (cookie_fields r.cookies ++ last_fields) r.body)
    ∙ simp append_assoc

-- What a name stands for behind some fields: the last value.
abbrev last_value : Bytes → List VarVal → Bytes → Bytes
last_value j [] v = v
last_value j (f ∷ fs) v =
    last_value j fs (if str_eq (trim (strtolower f.var)) j then trim f.val else v)

map_at-keep_all :
    (j : Bytes) (fs : List VarVal) (m : StringMap)
    → All (λ f. Lacks b':' f.var) fs
    → map_at j (keep_all (map field_line fs) m) ≡ last_value j fs (map_at j m)
map_at-keep_all j [] m h = refl
map_at-keep_all j (f ∷ fs) m h =
    map_at-keep_all j fs (keep_header (field_line f) m) h.1
    ∙ ap (last_value j fs) (map_at-keep_header j f.var f.val m h.0)

last_value-append :
    (j : Bytes) (fs gs : List VarVal) (v : Bytes)
    → last_value j (fs ++ gs) v ≡ last_value j gs (last_value j fs v)
last_value-append j [] gs v = refl
last_value-append j (f ∷ fs) gs v = last_value-append j fs gs _

last_value-cookies :
    (j : Bytes) (cs : List Cookie) (v : Bytes)
    → str_eq (codes "set-cookie") j ≡ false
    → last_value j (cookie_fields cs) v ≡ v
unfolding trim ltrim rtrim strtolower
last_value-cookies j [] v h = refl
last_value-cookies j (c ∷ cs) v h =
    ap (λ b. last_value j (cookie_fields cs) (if b then trim (cookie_value c) else v)) h
    ∙ last_value-cookies j cs v h

last_value-sid :
    (j sid v : Bytes) → str_eq (codes "set-cookie") j ≡ false → last_value j (sid_fields sid) v ≡ v
unfolding trim ltrim rtrim strtolower
last_value-sid j [] v h = refl
last_value-sid j (x ∷ sid) v h = rw h

cookie_fields-names : (cs : List Cookie) → All (λ f. Lacks b':' f.var) (cookie_fields cs)
cookie_fields-names [] = tt
cookie_fields-names (c ∷ cs) = (ground arith, cookie_fields-names cs)

sid_fields-names : (sid : Bytes) → All (λ f. Lacks b':' f.var) (sid_fields sid)
sid_fields-names [] = tt
sid_fields-names (x ∷ sid) = (ground arith, tt)

-- Behind the header of a response.
abbrev pub after_header : Bytes → Response → StringMap
after_header asctime r = keep_header [] (keep_all (map field_line (response_fields asctime r)) [])

map_at-after_header :
    (j asctime : Bytes) (r : Response)
    → j ≢ []
    → str_eq (codes "set-cookie") j ≡ false
    → map_at j (after_header asctime r)
      ≡ last_value j last_fields (
          last_value j
            (record { var = codes "Date"; val = b' ' ∷ date_text asctime r }
              ∷ record { var = codes "Content-Type"; val = b' ' ∷ r.content_type }
              ∷ record {
                var = codes "Content-Length";
                val = b' ' ∷ print_nat (length r.body % u32_mod);
              }
              ∷ record { var = codes "Last-Modified"; val = b' ' ∷ date_text asctime r }
              ∷ [])
            [])
map_at-after_header j asctime r ne h =
    let fs = sid_fields r.sid ++ (cookie_fields r.cookies ++ last_fields) in
    let all = keep_all (map field_line (response_fields asctime r)) [] in
    empty_name all
    ∙ map_at-keep_all j (response_fields asctime r) [] (
      ground arith,
      (
        ground arith,
        (
          ground arith,
          (
            ground arith,
            All-append (λ f. Lacks b':' f.var) (sid_fields r.sid)
                (cookie_fields r.cookies ++ last_fields) (sid_fields-names r.sid)
                (All-append (λ f. Lacks b':' f.var) (cookie_fields r.cookies) last_fields
                  (cookie_fields-names r.cookies) (ground arith)),
          ),
        ),
      ),
    )
    ∙ last_value-append j (sid_fields r.sid) (cookie_fields r.cookies ++ last_fields) _
    ∙ last_value-append j (cookie_fields r.cookies) last_fields _
    ∙ ap (last_value j last_fields)
        (last_value-cookies j r.cookies _ h ∙ last_value-sid j r.sid _ h)
    ∙ (unfold map_at in refl)
  where
    empty_name : (m : StringMap) → map_at j (keep_header [] m) ≡ map_at j m
    empty_name m =
        unfold keep_header trim ltrim rtrim strtolower in (map_at-set j [] [] m ∙ (off j ne))
      where
        off : (j : Bytes) → j ≢ [] → (if str_eq [] j then [] else map_at j m) ≡ map_at j m
        off [] ne = absurd (ne refl)
        off (x ∷ j) ne = refl

pub content_type-after_header :
    (asctime : Bytes) (r : Response)
    → map_at (codes "content-type") (after_header asctime r) ≡ trim (b' ' ∷ r.content_type)
unfolding strtolower trim ltrim rtrim
content_type-after_header asctime r =
    map_at-after_header (codes "content-type") asctime r (ground arith) (ground arith)

pub length-after_header :
    (asctime : Bytes) (r : Response)
    → map_at (codes "content-length") (after_header asctime r)
      ≡ trim (b' ' ∷ print_nat (length r.body % u32_mod))
unfolding strtolower trim ltrim rtrim
length-after_header asctime r =
    map_at-after_header (codes "content-length") asctime r (ground arith) (ground arith)

pub location-after_header :
    (asctime : Bytes) (r : Response) → map_at (codes "location") (after_header asctime r) ≡ []
unfolding strtolower trim ltrim rtrim
location-after_header asctime r =
    map_at-after_header (codes "location") asctime r (ground arith) (ground arith)
