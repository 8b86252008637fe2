-- ===== src/Config/Paths.antt =====
-- `CConfig::get` along a path.
use solusek.Base.{
  false, Option, none, some, inl, inr, if◌then◌else◌, Bytes, List, [], ◌∷◌, ◌++◌, ◌≡◌, ◌≢◌, refl,
  ap, ◌∙◌, str_eq, is_empty, find-append, find-Lacks, take-append, drop_past, Lacks, All,
  Bool-cases,
}
use solusek.Config.{
  node, ConfigNodes, nil, cons, split_path, find_node, config_get, unquote, node_value, get_config,
}

-- The names of a path, joined by slashes.
abbrev pub path_text : Bytes → List Bytes → Bytes
path_text name [] = name
path_text name (n ∷ names) = name ++ b'/' ∷ path_text n names

-- The value at the end of a path: at each level the first node of the name.
abbrev pub value_at : ConfigNodes → Bytes → List Bytes → Option Bytes
value_at nil name names = none
value_at (cons (node n val kids) ns) name [] =
    if str_eq n name then some val else value_at ns name []
value_at (cons (node n val kids) ns) name (m ∷ names) =
    if str_eq n name then value_at kids m names else value_at ns name (m ∷ names)

abbrev pub unquoted : Option Bytes → Bytes
unquoted none = []
unquoted (some val) = unquote val

abbrev pub IsName : Bytes → Type 0
IsName name = (name ≢ []) × Lacks b'/' name

split_path-text :
    (name n : Bytes) (names : List Bytes)
    → Lacks b'/' name
    → split_path (path_text name (n ∷ names)) ≡ (name, path_text n names)
unfolding split_path
split_path-text name n names h =
    let rest = path_text n names in
    rw
      (
        find-append b'/' name rest h,
        split_path,
        take-append name (b'/' ∷ rest),
        drop_past name b'/' rest,
      )
      refl

split_path-name : (name : Bytes) → Lacks b'/' name → split_path name ≡ (name, [])
unfolding split_path
split_path-name name h = rw (find-Lacks b'/' name h, split_path) refl

-- What is left of a path behind its first name.
abbrev rest_text : List Bytes → Bytes
rest_text [] = []
rest_text (n ∷ names) = path_text n names

split_path_lem :
    (name : Bytes) (names : List Bytes)
    → Lacks b'/' name
    → split_path (path_text name names) ≡ (name, rest_text names)
split_path_lem name [] h = split_path-name name h
split_path_lem name (n ∷ names) h = split_path-text name n names h

path_text-is_empty :
    (n : Bytes) (names : List Bytes) → n ≢ [] → is_empty (path_text n names) ≡ false
path_text-is_empty [] names h = absurd (h refl)
path_text-is_empty (c ∷ n) [] h = refl
path_text-is_empty (c ∷ n) (m ∷ names) h = refl

find_node-text :
    (ns : ConfigNodes) (name : Bytes) (names : List Bytes)
    → All IsName names
    → node_value (find_node ns name (rest_text names)) ≡ unquoted (value_at ns name names)
unfolding find_node node_value
find_node-text nil name names h = refl
find_node-text (cons (node n val kids) ns) name [] h = elim (Bool-cases (str_eq n name)) [
  | inl t ↦ rw (t, find_node) refl
  | inr t ↦ rw (t, find_node) (find_node-text ns name [] h)
]
find_node-text (cons (node n val kids) ns) name (m ∷ names) h = elim (Bool-cases (str_eq n name)) [
  | inl t ↦
      rw (t, find_node)
        (rw (path_text-is_empty m names (h.0).0)
          (rw (split_path_lem m names (h.0).1) (find_node-text kids m names h.1)))
  | inr t ↦ rw (t, find_node) (find_node-text ns name (m ∷ names) h)
]

-- A path of names that are not empty and hold no slash, joined by slashes, leads `get` to the value
-- at its end, without quotes, or to nothing: at each level to the first node of the name, and to no
-- other of that name.
pub get_config-path :
    (ns : ConfigNodes) (name : Bytes) (names : List Bytes)
    → All IsName (name ∷ names)
    → get_config ns (path_text name names) ≡ unquoted (value_at ns name names)
unfolding get_config config_get
get_config-path ns name names h =
    ap (λ (p : Bytes × Bytes). node_value (find_node ns p.0 p.1)) (split_path_lem name names h.0.1)
    ∙ find_node-text ns name names h.1
