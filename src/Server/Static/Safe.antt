-- ===== src/Server/Static/Safe.antt =====
-- No request makes the server open a file outside its static directories.
use solusek.Base.{
  ℕ, zero, suc, false, List, [], ◌∷◌, ◌++◌, ◌≡◌, refl, sym, ap, ◌∙◌, subst, arith, Option, none,
  some, inl, inr, ◌==◌, Bool-cases, Option-cases, Bytes, codes, find, find_last_of, find_str,
  find_str_complete, last_byte, is_empty, take, drop, take-append-drop, append_assoc, All,
  u32_of_pos,
}
use solusek.Model.{StaticEndpoint, MimeType}
use solusek.Files.{
  Disk, Log, fopen, fclose, read_text, read_text_file, read_binary, read_binary_file,
}
use solusek.Server.{Server}
use solusek.Server.Static.{
  host_fits, choose_directory, host_text, Search, no_fuel, answer, binary_answer, serve_type, probe,
  before_pos, after_pos, is_npos, serve_name, serve_file, index_loop, get_static_endpoint,
}

-- Two dots in a row somewhere.
abbrev pub HasDots : Bytes → Type 0
HasDots s = (a : Bytes) × (b : Bytes) × (s ≡ a ++ (codes ".." ++ b))

-- A path that some directory has.
pub data IsDirectory (path : Bytes) : List StaticEndpoint → Type 0 where
  here :
      (ep : StaticEndpoint) (eps : List StaticEndpoint)
      → path ≡ ep.path
      → IsDirectory path (ep ∷ eps)
  there :
      (ep : StaticEndpoint) {eps : List StaticEndpoint}
      → IsDirectory path eps
      → IsDirectory path (ep ∷ eps)

-- A name below a static directory, with no way up behind that directory.
pub record IsInside (s : Server) (name : Bytes) : Type 0 where
  pub directory : Bytes
  pub rest : Bytes
  pub registered : IsDirectory directory s.static_endpoints
  pub joined : name ≡ directory ++ (b'/' ∷ rest)
  pub flat : ¬ HasDots rest

-- The 32-bit place never equals the 64-bit `npos`.
pub is_npos-false : (o : Option ℕ) → is_npos o ≡ false
is_npos-false none = refl
is_npos-false (some i) = ground arith

choose_directory-IsDirectory :
    (eps : List StaticEndpoint) (shost : Bytes)
    → is_empty (choose_directory eps shost) ≡ false
    → IsDirectory (choose_directory eps shost) eps
unfolding choose_directory
choose_directory-IsDirectory [] shost h = absurd (cc)
choose_directory-IsDirectory (ep ∷ eps) shost h = elim (Bool-cases (host_fits ep shost)) [
  | inl e ↦ here ep eps (rw e)
  | inr e ↦ there ep (
      subst (λ p. IsDirectory p eps) (sym (rw e))
        (choose_directory-IsDirectory eps shost (rw e at h)))
]

-- A front of a path with no "..".
take-flat : (k : ℕ) (p : Bytes) → find_str (codes "..") p ≡ none → ¬ HasDots (take k p)
take-flat k p h (a, b, e) = find_str_complete a (codes "..") (b ++ drop k p) (
    subst (λ t. find_str (codes "..") t ≡ none)
      (sym (take-append-drop k p)
        ∙ ap (λ t. t ++ drop k p) e
        ∙ append_assoc a (codes ".." ++ b) (drop k p))
      h)

-- What a search may end with, given that `P` holds of every name opened so far.
abbrev pub Keeps : (Bytes → Type 0) → Search → Type 0
Keeps P no_fuel = Unit
Keeps P (answer none l) = All P l.opened
Keeps P (answer (some e) l) = All P l.opened × P e.path

module _ (P : Bytes → Type 0) (d : Disk) where
  fopen-Keeps : (name : Bytes) (l : Log) → P name → All P l.opened → All P (fopen d name l).1.opened
  fopen-Keeps name l p h = ground arith

  read_text-Keeps : (r : Option Bytes × Log) → All P r.1.opened → All P (read_text r).1.opened
  unfolding read_text
  read_text-Keeps (none, l) h = h
  read_text-Keeps (some c, l) h = h

  read_binary-Keeps : (r : Option Bytes × Log) → All P r.1.opened → All P (read_binary r).1.opened
  unfolding read_binary
  read_binary-Keeps (none, l) h = h
  read_binary-Keeps (some c, l) h = h

  binary_answer-Keeps :
      (dpath method ext t : Bytes) (r : Option Bytes × Log)
      → P dpath
      → All P r.1.opened
      → Keeps P (binary_answer d dpath method ext t r)
  unfolding binary_answer
  binary_answer-Keeps dpath method ext t (none, l) p h = tt
  binary_answer-Keeps dpath method ext t (some c, l) p h = (h, p)

  serve_type-Keeps :
      (m : Option MimeType) (dpath method ext : Bytes) (l : Log)
      → P dpath
      → All P l.opened
      → Keeps P (serve_type m d dpath method ext l)
  unfolding serve_type read_text_file read_binary_file
  serve_type-Keeps none dpath method ext l p h =
      binary_answer-Keeps dpath method ext _ (read_binary (fopen d dpath l)) p
        (read_binary-Keeps (fopen d dpath l) (fopen-Keeps dpath l p h))
  serve_type-Keeps (some m) dpath method ext l p h = elim (Bool-cases m.is_text) [
    | inl e ↦ rw e (read_text-Keeps (fopen d dpath l) (fopen-Keeps dpath l p h), p)
    | inr e ↦ rw e (
        binary_answer-Keeps dpath method ext _ (read_binary (fopen d dpath l)) p
          (read_binary-Keeps (fopen d dpath l) (fopen-Keeps dpath l p h)))
  ]

  probe-Keeps :
      (r : Option Bytes × Log) (m : Option MimeType) (dpath method ext : Bytes)
      → P dpath
      → All P r.1.opened
      → Keeps P (probe r m d dpath method ext)
  unfolding probe
  probe-Keeps (none, l) m dpath method ext p h = h
  probe-Keeps (some c, l) m dpath method ext p h =
      serve_type-Keeps m dpath method ext (fclose l) p h

  serve_name-Keeps :
      (s : Server) (dpath fname method : Bytes) (l : Log)
      → P dpath
      → All P l.opened
      → Keeps P (serve_name s d dpath fname method l)
  unfolding serve_name
  serve_name-Keeps s dpath fname method l p h =
      elim (Bool-cases (is_npos (find_last_of b'.' fname))) [
        | inl e ↦ rw e h
        | inr e ↦ rw e (probe-Keeps (fopen d dpath l) _ dpath method _ p (fopen-Keeps dpath l p h))
      ]

serve_file-Keeps :
    (s : Server) (d : Disk) (fpath method : Bytes) (host : Option Bytes) (l : Log)
    → find_str (codes "..") fpath ≡ none
    → All (IsInside s) l.opened
    → Keeps (IsInside s) (serve_file s d fpath method host l)
unfolding serve_file
serve_file-Keeps s d fpath method host l dots h =
    let dir = choose_directory s.static_endpoints (host_text host) in
    let bare = before_pos (find b'?' fpath) fpath in
    let never : is_npos (find b'?' fpath) ≡ false = is_npos-false (find b'?' fpath) in
    elim (Bool-cases (is_empty dir)) [
      | inl e ↦ rw e h
      | inr e ↦
          rw (never, e, is_npos-false (find_last_of b'/' bare))
            (serve_name-Keeps (IsInside s) d s (dir ++ (b'/' ∷ bare))
              (after_pos (find_last_of b'/' bare) bare) method l
              (record {
                directory = dir;
                rest = bare;
                registered = choose_directory-IsDirectory s.static_endpoints (host_text host) e;
                joined = refl;
                flat = take-flat (u32_of_pos (find b'?' fpath)) fpath dots;
              })
              h)
    ]

index_loop-Keeps :
    (P : Bytes → Type 0) (search : Bytes → Log → Search) (stray : ℕ) (names : List Bytes)
    (dpath : Bytes) (l : Log)
    → ((p : Bytes) (l : Log) → All P l.opened → Keeps P (search p l))
    → All P l.opened
    → Keeps P (index_loop search stray names dpath l)
unfolding index_loop
index_loop-Keeps P search stray [] dpath l keep h = h
index_loop-Keeps P search stray (name ∷ names) dpath l keep h =
    elim (Bool-cases (last_byte stray name == b'/')) [
      | inl e ↦ rw (e, index_loop) (index_loop-Keeps P search stray names dpath l keep h)
      | inr e ↦
          rw (e, index_loop)
            (go (search (dpath ++ name) l) (keep (dpath ++ name) l h)
              λ l'. index_loop-Keeps P search stray names dpath l' keep)
    ]
  where
    go :
        (r : Search)
        → Keeps P r
        → ((l' : Log) → All P l'.opened → Keeps P (index_loop search stray names dpath l'))
        → Keeps P (elim r [
          | no_fuel ↦ no_fuel
          | answer found l' ↦ elim found [
            | some e ↦ answer (some e) l'
            | none ↦ index_loop search stray names dpath l'
          ]
        ])
    go no_fuel k rec = tt
    go (answer none l') k rec = rec l' k
    go (answer (some e) l') k rec = k

-- Whatever the request, the index names and the fuel: every name that the search gives to
-- `fopen` lies below a registered static directory with no ".." behind it, and so does the path
-- of the endpoint that it returns, if the names in the log before lie there.
pub get_static_endpoint-Safe :
    (fuel : ℕ) (s : Server) (d : Disk) (stray : ℕ) (method : Bytes) (host : Option Bytes)
    (path : Bytes) (l : Log)
    → All (IsInside s) l.opened
    → Keeps (IsInside s) (get_static_endpoint fuel s d stray method host path l)
unfolding get_static_endpoint
get_static_endpoint-Safe zero s d stray method host path l h = tt
get_static_endpoint-Safe (suc fuel) s d stray method host path l h =
    let inner =
      index_loop-Keeps (IsInside s) (get_static_endpoint fuel s d stray method host) stray
        s.static_indexes path l (get_static_endpoint-Safe fuel s d stray method host) h in
    elim (Option-cases (find_str (codes "..") path)) [
      | inr (i, e) ↦ rw (e, get_static_endpoint) h
      | inl e ↦
          rw (e, get_static_endpoint)
            (elim (Bool-cases (last_byte stray path == b'/')) [
              | inl t ↦ rw t inner
              | inr t ↦ rw t (serve_file-Keeps s d path method host l e h)
            ])
    ]
