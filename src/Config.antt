-- ===== src/Config.antt =====
-- src/server/CConfig.cpp without YAML: the indented configuration text, its tree of nodes, and the
-- lookup along a path. The byte `stray` is what `s[s.size() - 1]` reads for an empty `s`.
pub mod Steps
pub mod Total
pub mod Printed
pub mod Nested
pub mod Paths
use solusek.Base.{
  ℕ, zero, suc, ◌+◌, ◌-◌, Bool, true, false, ◌&&◌, ◌||◌, Option, none, some, ◌==◌, ltb,
  if◌then◌else◌, Bytes, List, [], ◌∷◌, c_str, str_eq, find, take, drop, length, is_empty,
}

mutual
  -- `CConfig::CNode`; its parent is where it stands.
  pub data ConfigNode : Type 0 where
    node : Bytes → Bytes → ConfigNodes → ConfigNode

  pub data ConfigNodes : Type 0 where
    nil : ConfigNodes
    cons : ConfigNode → ConfigNodes → ConfigNodes

unfoldable pub push_node : ConfigNodes → ConfigNode → ConfigNodes
push_node nil n = cons n nil
push_node (cons m ns) n = cons m (push_node ns n)

-- The children of the last node.
unfoldable pub last_children : ConfigNodes → ConfigNodes
last_children nil = nil
last_children (cons (node n v kids) nil) = kids
last_children (cons m (cons k ns)) = last_children (cons k ns)

unfoldable pub set_last_children : ConfigNodes → ConfigNodes → ConfigNodes
set_last_children nil kids = nil
set_last_children (cons (node n v old) nil) kids = cons (node n v kids) nil
set_last_children (cons m (cons k ns)) kids = cons m (set_last_children (cons k ns) kids)

abbrev pub is_indent : ℕ → Bool
is_indent c = c == b' ' || c == b'\t'

-- `innerShift`
unfoldable pub indent : Bytes → ℕ
indent [] = 0
indent (c ∷ s) = if is_indent c then suc (indent s) else 0

-- `while(s[0] == ' ')`
unfoldable pub strip_front : Bytes → Bytes
strip_front [] = []
strip_front (c ∷ s) = if c == b' ' then strip_front s else c ∷ s

abbrev pub strip_onto : ℕ → Bytes → Bytes
strip_onto c r = if is_empty r && c == b' ' then [] else c ∷ r

-- `while(s[s.size()-1] == ' ')`, up to the empty text.
unfoldable pub strip_back : Bytes → Bytes
strip_back [] = []
strip_back (c ∷ s) = strip_onto c (strip_back s)

-- Both loops; `none` if the second goes on for ever.
unfoldable pub strip : ℕ → Bytes → Option Bytes
unfolding strip_front strip_back
strip stray s =
    let r = strip_back (strip_front s) in if is_empty r && stray == b' ' then none else some r

add_node : ConfigNodes → Option Bytes → Option Bytes → Option (ConfigNodes × Bool)
unfolding push_node
add_node kids none val = none
add_node kids (some var) none = none
add_node kids (some var) (some val) = some (push_node kids (node var val nil), true)

-- A line of this depth: the children, and whether one was added.
unfoldable pub add_line : ℕ → Bytes → ConfigNodes → Option (ConfigNodes × Bool)
unfolding strip add_node
add_line stray line kids = elim (find b':' line) [
  | none ↦ some (kids, false)
  | some pp ↦ add_node kids (strip stray (take pp line)) (strip stray (drop (suc pp) line))
]

-- The first line of the text, and what is behind its newline.
unfoldable pub next_line : Bytes → Option (Bytes × Bytes)
next_line body = elim (find b'\n' body) [
  | none ↦ none
  | some p ↦ some (take p body, drop (suc p) body)
]

-- `config_parse` as it calls itself: on the children `kids` of `parent` and what is left of the
-- text. `pushed` says whether `lastNode` is the last child rather than the parent itself.
abbrev pub ConfigParse : Type 0
ConfigParse = ConfigNodes → Bool → ℕ → Bytes → Option (ConfigNodes × Bytes)

-- Behind `config_parse(lastNode, body, innerShift)`.
abbrev pub after_inner :
    ConfigParse
    → ConfigNodes
    → Bool
    → ℕ
    → Option (ConfigNodes × Bytes)
    → Option (ConfigNodes × Bytes)
after_inner parse kids pushed shift none = none
after_inner parse kids pushed shift (some r) =
    parse (if pushed then set_last_children kids r.0 else r.0) pushed shift r.1

-- Behind a line of this depth.
abbrev pub after_line :
    ConfigParse → Bool → ℕ → Bytes → Option (ConfigNodes × Bool) → Option (ConfigNodes × Bytes)
after_line parse pushed shift rest none = none
after_line parse pushed shift rest (some r) = parse r.0 (pushed || r.1) shift rest

-- Whether the line is deeper, and whether it is less deep.
abbrev pub by_depth :
    ConfigParse
    → ℕ
    → ConfigNodes
    → Bool
    → ℕ
    → Bytes
    → Bytes × Bytes
    → Bool
    → Bool
    → Option (ConfigNodes × Bytes)
by_depth parse stray kids pushed shift body split true less =
    after_inner parse kids pushed shift
      (parse (if pushed then last_children kids else kids) false (indent split.0) body)
by_depth parse stray kids pushed shift body split false true = some (kids, body)
by_depth parse stray kids pushed shift body split false false =
    after_line parse pushed shift split.1 (add_line stray (drop (indent split.0) split.0) kids)

-- A round of the loop.
abbrev pub parse_round :
    ConfigParse
    → ℕ
    → ConfigNodes
    → Bool
    → ℕ
    → Bytes
    → Option (Bytes × Bytes)
    → Option (ConfigNodes × Bytes)
parse_round parse stray kids pushed shift body none = some (kids, body)
parse_round parse stray kids pushed shift body (some split) =
    by_depth parse stray kids pushed shift body split (ltb shift (indent split.0))
      (ltb (indent split.0) shift)

-- `none` means that the fuel ran out, or that a loop of a line goes on for ever.
unfoldable pub config_parse : ℕ → ℕ → ConfigParse
unfolding next_line add_line last_children set_last_children indent
config_parse zero stray kids pushed shift body = none
config_parse (suc fuel) stray kids pushed shift body =
    parse_round (config_parse fuel stray) stray kids pushed shift body (next_line body)

-- The tree of a file's contents.
unfoldable pub load_config : ℕ → ℕ → Bytes → Option (ConfigNodes × Bytes)
unfolding config_parse
load_config fuel stray content = config_parse fuel stray nil false 0 (c_str content)

-- The first name of a path, and the rest.
unfoldable pub split_path : Bytes → Bytes × Bytes
split_path path = elim (find b'/' path) [
  | none ↦ (path, [])
  | some p ↦ (take p path, drop (suc p) path)
]

unfoldable pub find_node : ConfigNodes → Bytes → Bytes → Option ConfigNode
unfolding split_path
find_node nil var path = none
find_node (cons (node name val kids) ns) var path = elim (str_eq name var) [
  | true ↦ elim (is_empty path) [
    | true ↦ some (node name val kids)
    | false ↦ find_node kids (split_path path).0 (split_path path).1
  ]
  | false ↦ find_node ns var path
]

unfoldable pub config_get : ConfigNodes → Bytes → Option ConfigNode
unfolding find_node
config_get nodes path = find_node nodes (split_path path).0 (split_path path).1

abbrev ends_in_quote : Bytes → Bool
ends_in_quote [] = false
ends_in_quote (c ∷ []) = c == b'"'
ends_in_quote (c ∷ d ∷ s) = ends_in_quote (d ∷ s)

-- A value in double quotes without them.
unfoldable pub unquote : Bytes → Bytes
unquote [] = []
unquote (c ∷ s) = if c == b'"' && ends_in_quote (c ∷ s) then take (length (c ∷ s) - 2) s else c ∷ s

node_value : Option ConfigNode → Bytes
unfolding unquote
node_value none = []
node_value (some (node name val kids)) = unquote val

-- `CConfig::get`
unfoldable pub get_config : ConfigNodes → Bytes → Bytes
unfolding config_get node_value
get_config nodes path = node_value (config_get nodes path)
