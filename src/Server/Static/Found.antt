-- ===== src/Server/Static/Found.antt =====
-- A file that is there is found, with its contents and the type of its extension.
use solusek.Base.{
  ℕ, suc, ◌+◌, ◌%◌, ◌≤◌, ◌<◌, false, [], ◌∷◌, ◌++◌, ◌≡◌, ◌≢◌, refl, ap, ◌∙◌, arith, Bool-cases, inl,
  inr, Option, none, some, ◌==◌, ==_ne, Bytes, codes, find, find_last_of, find-Lacks,
  find_last_of-append, find_str, last_byte, last_byte-append, is_empty, take_all, drop, drop_past,
  length, length-append, Lacks, u32_mod,
}
use solusek.Model.{Endpoint, MimeType}
use solusek.Text.{strtolower}
use solusek.Files.{Disk, Log, fopen, fclose}
use solusek.Files.Whole.{fopen_found, read_text_file_whole, read_binary_file_whole}
use solusek.Server.{Server, get_mime_type}
use solusek.Server.Static.Safe.{is_npos-false}
use solusek.Server.Static.{
  choose_directory, host_text, static_result, answer, binary_answer, serve_type, probe, before_pos,
  after_pos, serve_name, serve_file, get_static_endpoint,
}

-- The content type of a type that is known or not.
abbrev pub served_type : Option MimeType → Bytes
served_type none = codes "application/force-download"
served_type (some mime) = mime.kind

-- The endpoint of a file.
abbrev pub file_endpoint : Disk → Bytes → Bytes → Bytes → Bytes → Option MimeType → Endpoint
file_endpoint d dpath method ext contents mime = record {
  kind = 1;
  path = dpath;
  method = method;
  contents = contents;
  ext = ext;
  content_type = served_type mime;
  date = d.mod_time dpath;
  callback = 0;
}

module _ (d : Disk) (dpath contents : Bytes) (there : d.open_file dpath ≡ some contents)
    (fits : length contents + 512 ≤ u32_mod) (method ext : Bytes) where
  serve_type-file :
      (mime : Option MimeType) (l : Log)
      → (l' : Log) × (serve_type mime d dpath method ext l
          ≡ answer (some (file_endpoint d dpath method ext contents mime)) l')
  unfolding serve_type binary_answer static_result
  serve_type-file none l = (
    _,
    ap (λ r. binary_answer d dpath method ext (codes "application/force-download") r)
        (read_binary_file_whole d dpath contents l there fits),
  )
  serve_type-file (some mime) l = elim (Bool-cases mime.is_text) [
    | inl t ↦ rw t (
      record { opened = dpath ∷ l.opened; handles = l.handles },
      ap (λ (r : Bytes × Log). answer (some (static_result d dpath method ext r.0 mime.kind)) r.1)
          (read_text_file_whole d dpath contents l there),
    )
    | inr t ↦ rw t (
      record { opened = dpath ∷ l.opened; handles = suc l.handles },
      ap (λ r. binary_answer d dpath method ext mime.kind r)
          (read_binary_file_whole d dpath contents l there fits),
    )
  ]

  probe-file :
      (mime : Option MimeType) (l : Log)
      → (l' : Log) × (probe (fopen d dpath l) mime d dpath method ext
          ≡ answer (some (file_endpoint d dpath method ext contents mime)) l')
  unfolding probe
  probe-file mime l =
      let opened : Log = record { opened = dpath ∷ l.opened; handles = suc l.handles } in
      let (l', e) = serve_type-file mime (fclose opened) in
      (l', ap (λ f. probe f mime d dpath method ext) (fopen_found d dpath contents l there) ∙ e)

-- What is behind the last place of a byte.
after_last :
    (c : ℕ) (front behind : Bytes)
    → suc (length front) < u32_mod
    → Lacks c behind
    → after_pos (find_last_of c (front ++ c ∷ behind)) (front ++ c ∷ behind) ≡ behind
after_last c front behind small h =
    let at = find_last_of-append c front behind h in
    let place : (length front % u32_mod + 1) % u32_mod ≡ suc (length front) = omega arith in
    ap (λ o. after_pos o (front ++ c ∷ behind)) at
    ∙ ap (λ n. drop n (front ++ c ∷ behind)) place
    ∙ drop_past front c behind

-- A path as a client names a file: the directory part, the name up to its last dot, and the extension.
abbrev pub file_path : Bytes → Bytes → Bytes → Bytes
file_path front stem ext = front ++ b'/' ∷ (stem ++ b'.' ∷ ext)

pub record IsFilePath (front stem ext : Bytes) : Type 0 where
  pub no_dots : find_str (codes "..") (file_path front stem ext) ≡ none
  pub no_query : Lacks b'?' (file_path front stem ext)
  pub name : Lacks b'/' (stem ++ b'.' ∷ ext)
  pub last_dot : Lacks b'.' ext
  pub short : length (file_path front stem ext) < 4294967295

-- The name does not end in a slash.
last_byte-Lacks :
    (b stray : ℕ) (s : Bytes) → stray ≢ b → Lacks b s → (last_byte stray s == b) ≡ false
last_byte-Lacks b stray [] ne h = ==_ne stray b ne
last_byte-Lacks b stray (x ∷ s) ne h = last_byte-Lacks b x s h.0 h.1

last_byte-file_path :
    (stray : ℕ) (front stem ext : Bytes)
    → IsFilePath front stem ext
    → (last_byte stray (file_path front stem ext) == b'/') ≡ false
last_byte-file_path stray front [] ext h =
    ap (λ x. x == b'/') (last_byte-append stray front b'/' (b'.' ∷ ext))
    ∙ last_byte-Lacks b'/' b'.' ext (h.name.0) (h.name.1)
last_byte-file_path stray front (c ∷ stem) ext h =
    ap (λ x. x == b'/') (last_byte-append stray front b'/' (c ∷ (stem ++ b'.' ∷ ext)))
    ∙ last_byte-Lacks b'/' c (stem ++ b'.' ∷ ext) (h.name.0) (h.name.1)

serve_name-file :
    (s : Server) (d : Disk) (dpath method stem ext : Bytes) (l : Log)
    → Lacks b'.' ext
    → suc (length stem) < u32_mod
    → serve_name s d dpath (stem ++ b'.' ∷ ext) method l
      ≡ probe (fopen d dpath l) (get_mime_type s (strtolower ext)) d dpath method (strtolower ext)
unfolding serve_name
serve_name-file s d dpath method stem ext l h small =
    let fname = stem ++ b'.' ∷ ext in
    rw (is_npos-false (find_last_of b'.' fname)) (
      ap
        (λ e.
          probe (fopen d dpath l) (get_mime_type s (strtolower e)) d dpath method (strtolower e))
        (after_last b'.' stem ext small h))

before_query :
    (path : Bytes)
    → Lacks b'?' path
    → length path < 4294967295
    → before_pos (find b'?' path) path ≡ path
before_query path h small =
    ap (λ o. before_pos o path) (find-Lacks b'?' path h) ∙ take_all 4294967295 path (omega arith)

is_empty-ne : (s : Bytes) → s ≢ [] → is_empty s ≡ false
is_empty-ne [] h = absurd (h refl)
is_empty-ne (x ∷ s) h = refl

serve_file-file :
    (s : Server) (d : Disk) (method : Bytes) (host : Option Bytes) (front stem ext dir : Bytes)
    (l : Log)
    → IsFilePath front stem ext
    → choose_directory s.static_endpoints (host_text host) ≡ dir
    → dir ≢ []
    → serve_file s d (file_path front stem ext) method host l
      ≡ serve_name s d (dir ++ b'/' ∷ file_path front stem ext) (stem ++ b'.' ∷ ext) method l
unfolding serve_file
serve_file-file s d method host front stem ext dir l h at ne =
    let path = file_path front stem ext in
    let long = length-append front (b'/' ∷ (stem ++ b'.' ∷ ext)) in
    rw (at, is_npos-false (find b'?' path), is_empty-ne dir ne)
      (rw (before_query path h.no_query h.short) (
        rw (is_npos-false (find_last_of b'/' path)) (
          ap (λ f. serve_name s d (dir ++ b'/' ∷ path) f method l)
            (after_last b'/' front (stem ++ b'.' ∷ ext) (omega (arith, long, h.short)) h.name))))

-- A file that is there, below the first static directory for the host and of at most 2^32 - 512 bytes, is
-- found under its path, with its contents, and with the content type that is registered for its
-- extension in lower case, or else the one for a download: if the path has no ".." and no question
-- mark in it, and the extension no slash.
pub get_static_endpoint-file :
    (fuel : ℕ) (s : Server) (d : Disk) (stray : ℕ) (method : Bytes) (host : Option Bytes)
    (front stem ext dir contents : Bytes) (l : Log)
    → IsFilePath front stem ext
    → choose_directory s.static_endpoints (host_text host) ≡ dir
    → dir ≢ []
    → d.open_file (dir ++ b'/' ∷ file_path front stem ext) ≡ some contents
    → length contents + 512 ≤ u32_mod
    → (l' : Log) × (get_static_endpoint
          (suc fuel)
          s
          d
          stray
          method
          host
          (file_path front stem ext)
          l
        ≡ answer
            (some (
              file_endpoint d
                (dir ++ b'/' ∷ file_path front stem ext)
                method
                (strtolower ext)
                contents
                (get_mime_type s (strtolower ext))))
            l')
unfolding get_static_endpoint serve_file serve_name
get_static_endpoint-file fuel s d stray method host front stem ext dir contents l h at ne there
      fits =
    let path = file_path front stem ext in
    let dpath = dir ++ b'/' ∷ path in
    let mime = get_mime_type s (strtolower ext) in
    let long = length-append front (b'/' ∷ (stem ++ b'.' ∷ ext)) in
    let long' = length-append stem (b'.' ∷ ext) in
    let (l', e) = probe-file d dpath contents there fits method (strtolower ext) mime l in
    (
      l',
      rw (h.no_dots, last_byte-file_path stray front stem ext h)
          (serve_file-file s d method host front stem ext dir l h at ne
            ∙ serve_name-file s d dpath method stem ext l h.last_dot
                (omega (arith, long, long', h.short))
            ∙ e),
    )
