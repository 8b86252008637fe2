-- ===== src/Server/Static/Ends.antt =====
-- When the recursion between `getStaticEndpoint` and `getStaticIndex` ends.
use solusek.Base.{
  ℕ, zero, suc, ◌+◌, ◌≤◌, false, List, [], ◌∷◌, ◌++◌, ◌≡◌, ◌≢◌, refl, ap, ◌∙◌, arith, Option, none,
  some, inl, inr, ◌==◌, ==_ne, Bool-cases, Option-cases, Bytes, codes, find, find_last_of, find_str,
  last_byte, last_byte-append, is_empty, append-nil, All, length, u32_mod,
}
use solusek.Model.{MimeType}
use solusek.Files.{Disk, Log, fopen, fclose, read_binary, read_binary_file}
use solusek.Files.Whole.{binary_rounds_ends}
use solusek.Server.{Server}
use solusek.Server.Static.Safe.{is_npos-false}
use solusek.Server.Static.{
  choose_directory, host_text, Search, no_fuel, answer, binary_answer, serve_type, probe,
  before_pos, after_pos, is_npos, serve_name, serve_file, index_loop, get_static_endpoint,
}

abbrev pub Answers : Search → Type 0
Answers no_fuel = ⊥
Answers (answer o l) = Unit

-- Every file is short enough for the 32-bit counter of `readBinaryFile`.
abbrev pub IsSmall : Disk → Type 0
IsSmall d =
    (name content : Bytes) → d.open_file name ≡ some content → length content + 512 ≤ u32_mod

module _ (d : Disk) (small : IsSmall d) where
  -- A file that is not there or short is read to its end.
  read-Answers :
      (r : Option Bytes × Log) (dpath method ext t : Bytes)
      → ((c : Bytes) → r.0 ≡ some c → length c + 512 ≤ u32_mod)
      → Answers (binary_answer d dpath method ext t (read_binary r))
  unfolding binary_answer read_binary
  read-Answers (none, l) dpath method ext t h = tt
  read-Answers (some c, l) dpath method ext t h =
      let (r, f) = binary_rounds_ends c (h c refl) in rw f tt

  binary_answer-Answers :
      (dpath method ext t : Bytes) (l : Log)
      → Answers (binary_answer d dpath method ext t (read_binary_file d dpath l))
  unfolding read_binary_file
  binary_answer-Answers dpath method ext t l =
      read-Answers (fopen d dpath l) dpath method ext t λ c e. small dpath c (ground arith)

  serve_type-Answers :
      (m : Option MimeType) (dpath method ext : Bytes) (l : Log)
      → Answers (serve_type m d dpath method ext l)
  unfolding serve_type
  serve_type-Answers none dpath method ext l = binary_answer-Answers dpath method ext _ l
  serve_type-Answers (some m) dpath method ext l = elim (Bool-cases m.is_text) [
    | inl e ↦ rw e tt
    | inr e ↦ rw e (binary_answer-Answers dpath method ext _ l)
  ]

  probe-Answers :
      (r : Option Bytes × Log) (m : Option MimeType) (dpath method ext : Bytes)
      → Answers (probe r m d dpath method ext)
  unfolding probe
  probe-Answers (none, l) m dpath method ext = tt
  probe-Answers (some c, l) m dpath method ext = serve_type-Answers m dpath method ext (fclose l)

  serve_file-Answers :
      (s : Server) (fpath method : Bytes) (host : Option Bytes) (l : Log)
      → Answers (serve_file s d fpath method host l)
  unfolding serve_file serve_name
  serve_file-Answers s fpath method host l =
      let bare = before_pos (find b'?' fpath) fpath in
      let never : is_npos (find b'?' fpath) ≡ false = is_npos-false (find b'?' fpath) in
      elim (Bool-cases (is_empty (choose_directory s.static_endpoints (host_text host)))) [
        | inl e ↦ rw e tt
        | inr e ↦
            rw
              (
                never,
                e,
                is_npos-false (find_last_of b'/' bare),
                is_npos-false (find_last_of b'.' (after_pos (find_last_of b'/' bare) bare)),
              )
              (probe-Answers _ _ _ method _)
      ]

  index_loop-Answers :
      (search : Bytes → Log → Search) (stray : ℕ) (names : List Bytes) (dpath : Bytes) (l : Log)
      → All (λ n. n ≢ []) names
      → ((name : Bytes) (l : Log)
          → name ≢ []
          → (last_byte stray name == b'/') ≡ false
          → Answers (search (dpath ++ name) l))
      → Answers (index_loop search stray names dpath l)
  unfolding index_loop
  index_loop-Answers search stray [] dpath l h ans = tt
  index_loop-Answers search stray (name ∷ names) dpath l h ans =
      elim (Bool-cases (last_byte stray name == b'/')) [
        | inl e ↦ rw (e, index_loop) (index_loop-Answers search stray names dpath l h.1 ans)
        | inr e ↦
            rw (e, index_loop)
              (go (search (dpath ++ name) l) (ans name l h.0 e)
                λ l'. index_loop-Answers search stray names dpath l' h.1 ans)
      ]
    where
      go :
          (r : Search)
          → Answers r
          → ((l' : Log) → Answers (index_loop search stray names dpath l'))
          → Answers (elim r [
            | no_fuel ↦ no_fuel
            | answer found l' ↦ elim found [
              | some e ↦ answer (some e) l'
              | none ↦ index_loop search stray names dpath l'
            ]
          ])
      go no_fuel k rec = absurd k
      go (answer none l') k rec = rec l'
      go (answer (some e) l') k rec = tt

  -- A path that does not end in a slash needs no index.
  direct-Answers :
      (fuel : ℕ) (s : Server) (stray : ℕ) (method : Bytes) (host : Option Bytes) (path : Bytes)
      (l : Log)
      → (last_byte stray path == b'/') ≡ false
      → Answers (get_static_endpoint (suc fuel) s d stray method host path l)
  unfolding get_static_endpoint
  direct-Answers fuel s stray method host path l t =
      elim (Option-cases (find_str (codes "..") path)) [
        | inr (i, e) ↦ rw (e, get_static_endpoint) tt
        | inl e ↦ rw (e, get_static_endpoint) (rw t (serve_file-Answers s path method host l))
      ]

  last_of_index :
      (stray : ℕ) (path name : Bytes)
      → name ≢ []
      → last_byte stray (path ++ name) ≡ last_byte stray name
  last_of_index stray path [] ne = absurd (ne refl)
  last_of_index stray path (x ∷ name) ne = last_byte-append stray path x name

  -- If no registered index name is empty and no file is longer than 2^32 - 512 bytes, the search
  -- answers every request with two units of fuel, so after one recursion at most.
  pub get_static_endpoint-Answers :
      (fuel : ℕ) (s : Server) (stray : ℕ) (method : Bytes) (host : Option Bytes) (path : Bytes)
      (l : Log)
      → All (λ n. n ≢ []) s.static_indexes
      → Answers (get_static_endpoint (suc (suc fuel)) s d stray method host path l)
  unfolding get_static_endpoint
  get_static_endpoint-Answers fuel s stray method host path l h =
      let inner =
        index_loop-Answers (get_static_endpoint (suc fuel) s d stray method host) stray
          s.static_indexes path l h
          λ name l' ne t.
            direct-Answers fuel s stray method host (path ++ name) l'
              (ap (λ b. b == b'/') (last_of_index stray path name ne) ∙ t) in
      elim (Option-cases (find_str (codes "..") path)) [
        | inr (i, e) ↦ rw (e, get_static_endpoint) tt
        | inl e ↦
            rw (e, get_static_endpoint)
              (elim (Bool-cases (last_byte stray path == b'/')) [
                | inl t ↦ rw t inner
                | inr t ↦ rw t (serve_file-Answers s path method host l)
              ])
      ]

empty_name_again :
    (search : Bytes → Log → Search) (stray : ℕ) (names : List Bytes) (dpath : Bytes) (l : Log)
    → stray ≢ b'/'
    → search (dpath ++ []) l ≡ no_fuel
    → index_loop search stray ([] ∷ names) dpath l ≡ no_fuel
unfolding index_loop
empty_name_again seek stray names dpath l ns e = rw (==_ne stray b'/' ns, index_loop, e) refl

-- With an empty name as the first index, a path that ends in a slash and holds no ".." is
-- searched forever, so that no fuel is enough, if the byte before an empty string's text is no
-- slash.
pub empty_index_diverges :
    (fuel : ℕ) (s : Server) (d : Disk) (stray : ℕ) (method : Bytes) (host : Option Bytes)
    (path : Bytes) (names : List Bytes) (l : Log)
    → s.static_indexes ≡ [] ∷ names
    → stray ≢ b'/'
    → find_str (codes "..") path ≡ none
    → last_byte stray path ≡ b'/'
    → get_static_endpoint fuel s d stray method host path l ≡ no_fuel
unfolding get_static_endpoint
empty_index_diverges zero s d stray method host path names l i ns dots slash = refl
empty_index_diverges (suc fuel) s d stray method host path names l i ns dots slash =
    let again =
      ap (λ p. get_static_endpoint fuel s d stray method host p l) (append-nil path)
      ∙ empty_index_diverges fuel s d stray method host path names l i ns dots slash in
    let search = get_static_endpoint fuel s d stray method host in
    rw (dots, get_static_endpoint)
      (rw slash (
        ap (λ ns. index_loop search stray ns path l) i
        ∙ empty_name_again search stray names path l ns again))
