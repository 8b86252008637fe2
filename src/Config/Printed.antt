-- ===== src/Config/Printed.antt =====
-- A tree of settings, printed with indentation: its lines, and what is made of one.
use solusek.Base.{
  ℕ, zero, suc, ◌+◌, true, false, some, Bytes, [], ◌∷◌, ◌++◌, ◌≡◌, ◌≢◌, refl, sym, ap, ◌∙◌, arith,
  find-append, drop, take-append, drop_past, Lacks, All-append, append_assoc, ==_ne,
}
use solusek.Config.{
  node, ConfigNodes, nil, cons, push_node, is_indent, indent, strip_front, strip_back, strip,
  add_node, add_line, next_line,
}

-- No space at either end.
abbrev pub IsStripped : Bytes → Type 0
IsStripped s = (strip_front s ≡ s) × (strip_back s ≡ s)

abbrev pub IsFlush : Bytes → Type 0
IsFlush [] = ⊥
IsFlush (c ∷ s) = is_indent c ≡ false

pub record IsSetting (name val : Bytes) : Type 0 where
  pub flush : IsFlush name
  pub name_line : Lacks b'\n' name
  pub name_word : Lacks b':' name
  pub name_stripped : IsStripped name
  pub value_line : Lacks b'\n' val
  pub value_stripped : IsStripped val

abbrev pub blanks : ℕ → Bytes
blanks zero = []
blanks (suc n) = b' ' ∷ blanks n

abbrev pub setting_line : ℕ → Bytes → Bytes → Bytes
setting_line depth name val = blanks depth ++ (name ++ b':' ∷ b' ' ∷ val)

-- Each level stands `suc step` blanks behind the one above it.
abbrev pub deeper : ℕ → ℕ → ℕ
deeper step depth = suc (step + depth)

abbrev pub nodes_text : ℕ → ℕ → ConfigNodes → Bytes
nodes_text step depth nil = []
nodes_text step depth (cons (node name val kids) ns) =
    setting_line depth name val
    ++ b'\n' ∷ (nodes_text step (deeper step depth) kids ++ nodes_text step depth ns)

abbrev pub AllSettings : ConfigNodes → Type 0
AllSettings nil = Unit
AllSettings (cons (node name val kids) ns) = IsSetting name val × AllSettings kids × AllSettings ns

strip_self : (stray : ℕ) (s : Bytes) → stray ≢ b' ' → IsStripped s → strip stray s ≡ some s
unfolding strip
strip_self stray [] ne h = rw (==_ne stray b' ' ne) refl
strip_self stray (c ∷ s) ne h = rw (h.0, h.1) refl

strip-space :
    (stray : ℕ) (s : Bytes) → stray ≢ b' ' → IsStripped s → strip stray (b' ' ∷ s) ≡ some s
unfolding strip strip_front
strip-space stray s ne h = strip_self stray s ne h

pub indent-setting :
    (depth : ℕ) (name val : Bytes) → IsFlush name → indent (setting_line depth name val) ≡ depth
unfolding indent
indent-setting zero [] val h = elim h [ ]
indent-setting zero (c ∷ name) val h = rw h refl
indent-setting (suc depth) name val h = ap suc (indent-setting depth name val h)

pub drop-blanks : (depth : ℕ) (s : Bytes) → drop depth (blanks depth ++ s) ≡ s
drop-blanks zero s = refl
drop-blanks (suc depth) s = drop-blanks depth s

blanks-Lacks : (b depth : ℕ) → b ≢ b' ' → Lacks b (blanks depth)
blanks-Lacks b zero ne = tt
blanks-Lacks b (suc depth) ne = (λ e. ne (sym e), blanks-Lacks b depth ne)

pub add_line-setting :
    (stray : ℕ) (kids : ConfigNodes) (name val : Bytes)
    → stray ≢ b' '
    → IsSetting name val
    → add_line stray (name ++ b':' ∷ b' ' ∷ val) kids
      ≡ some (push_node kids (node name val nil), true)
unfolding add_line add_node
add_line-setting stray kids name val ne h =
    rw
      (
        find-append b':' name (b' ' ∷ val) h.name_word,
        add_line,
        take-append name (b':' ∷ b' ' ∷ val),
        drop_past name b':' (b' ' ∷ val),
      )
      (rw (strip_self stray name ne h.name_stripped, strip-space stray val ne h.value_stripped)
        refl)

next_line-append :
    (line rest : Bytes) → Lacks b'\n' line → next_line (line ++ b'\n' ∷ rest) ≡ some (line, rest)
unfolding next_line
next_line-append line rest h =
    rw
      (
        find-append b'\n' line rest h,
        next_line,
        take-append line (b'\n' ∷ rest),
        drop_past line b'\n' rest,
      )
      refl

-- The first line of a tree's text, and what is behind it.
pub next_line-nodes :
    (step depth : ℕ) (name val : Bytes) (kids ns : ConfigNodes) (rest : Bytes)
    → IsSetting name val
    → next_line (nodes_text step depth (cons (node name val kids) ns) ++ rest)
      ≡ some (
        setting_line depth name val,
        nodes_text step (deeper step depth) kids ++ (nodes_text step depth ns ++ rest),
      )
next_line-nodes step depth name val kids ns rest h =
    let line = setting_line depth name val in
    let clean : Lacks b'\n' line =
      All-append (λ c. c ≢ b'\n') (blanks depth) (name ++ b':' ∷ b' ' ∷ val)
        (blanks-Lacks b'\n' depth (λ k. omega arith))
        (All-append (λ c. c ≢ b'\n') name (b':' ∷ b' ' ∷ val) h.name_line
          ((λ k. omega arith), ((λ k. omega arith), h.value_line))) in
    let inner = nodes_text step (deeper step depth) kids in
    let outer = nodes_text step depth ns in
    ap next_line (
      append_assoc line (b'\n' ∷ (inner ++ outer)) rest
      ∙ ap (λ t. line ++ b'\n' ∷ t) (append_assoc inner outer rest))
    ∙ next_line-append line (inner ++ (outer ++ rest)) clean
