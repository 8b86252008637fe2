-- ===== src/Config/Total.antt =====
-- `config_parse` ends.
use solusek.Base.{
  ℕ, zero, suc, ◌*◌, ◌≤◌, ◌<◌, Bool, true, false, ◌||◌, Option, some, inl, inr, ltb, ◌==◌,
  if◌then◌else◌, Bytes, [], ◌∷◌, ◌≡◌, ◌≢◌, refl, ap, ◌∙◌, arith, find, take, drop, c_str,
  Bool-cases, Option-cases,
}
use solusek.Config.{
  ConfigNodes, nil, node, push_node, last_children, set_last_children, indent, strip_front,
  strip_back, strip, add_node, add_line, next_line, after_inner, after_line, config_parse,
  load_config,
}
use solusek.Config.Steps.{config_parse-round, ltb-of_le, config_parse-no_line}

-- The newlines of a text.
abbrev pub newlines : Bytes → ℕ
newlines [] = 0
newlines (c ∷ s) = if c == b'\n' then suc (newlines s) else newlines s

newlines-find :
    (s : Bytes) (p : ℕ) → find b'\n' s ≡ some p → newlines s ≡ suc (newlines (drop (suc p) s))
newlines-find [] p e = absurd (cc)
newlines-find (c ∷ s) p e = elim (Bool-cases (c == b'\n')) [
  | inl t ↦ ground arith
  | inr t ↦ elim (Option-cases (find b'\n' s)) [
    | inl h ↦ absurd (ground arith)
    | inr (q, h) ↦ ground (arith, newlines-find s q h)
  ]
]

newlines-next_line :
    (body : Bytes) (split : Bytes × Bytes)
    → next_line body ≡ some split
    → newlines body ≡ suc (newlines split.1)
unfolding next_line
newlines-next_line body split e = elim (Option-cases (find b'\n' body)) [
  | inl h ↦ absurd (ground arith)
  | inr (p, h) ↦ ground (arith, newlines-find body p h)
]

strip_total : (stray : ℕ) (s : Bytes) → stray ≢ b' ' → (r : Bytes) × (strip stray s ≡ some r)
unfolding strip
strip_total stray s ne = (strip_back (strip_front s), ground arith)

add_line_total :
    (stray : ℕ) (line : Bytes) (kids : ConfigNodes)
    → stray ≢ b' '
    → (r : ConfigNodes × Bool) × (add_line stray line kids ≡ some r)
unfolding add_line add_node
add_line_total stray line kids ne = elim (Option-cases (find b':' line)) [
  | inl h ↦ ((kids, false), rw (h, add_line) refl)
  | inr (p, h) ↦
      let (var, v) = strip_total stray (take p line) ne in
      let (val, w) = strip_total stray (drop (suc p) line) ne in
      ((push_node kids (node var val nil), true), rw (h, add_line) (rw (v, w) refl))
]

-- The call returns, and leaves no more than this many lines.
abbrev Leaves : ℕ → Option (ConfigNodes × Bytes) → Type 0
Leaves n o = (r : ConfigNodes × Bytes) × (o ≡ some r) × (newlines r.1 ≤ n)

ltb_antisym : (a b : ℕ) → ltb a b ≡ false → ltb b a ≡ false → b ≡ a
ltb_antisym a b h k = ground arith

-- A call that begins with a line of its own depth takes that line.
taken-Leaves :
    (fuel stray : ℕ) (kids : ConfigNodes) (pushed : Bool) (shift : ℕ) (body : Bytes)
    (split : Bytes × Bytes)
    → stray ≢ b' '
    → next_line body ≡ some split
    → indent split.0 ≡ shift
    → ((kids' : ConfigNodes) (pushed' : Bool)
        → Leaves (newlines split.1) (config_parse fuel stray kids' pushed' shift split.1))
    → Leaves (newlines split.1) (config_parse (suc fuel) stray kids pushed shift body)
taken-Leaves fuel stray kids pushed shift body split ne line same rest =
    let (r, e) = add_line_total stray (drop (indent split.0) split.0) kids ne in
    let (q, e', le) = rest r.0 (pushed || r.1) in
    (
      q,
      config_parse-round fuel stray kids pushed shift body split false false line
            (ltb-of_le shift (indent split.0) (omega arith))
            (ltb-of_le (indent split.0) shift (omega arith))
          ∙ ap (after_line (config_parse fuel stray) pushed shift split.1) e
          ∙ e',
      le,
    )

mutual
  config_parse-Leaves :
      (fuel stray : ℕ) (kids : ConfigNodes) (pushed : Bool) (shift : ℕ) (body : Bytes)
      → stray ≢ b' '
      → 2 * newlines body < fuel
      → Leaves (newlines body) (config_parse fuel stray kids pushed shift body)
  config_parse-Leaves zero stray kids pushed shift body ne fits = absurd (omega arith)
  config_parse-Leaves (suc fuel) stray kids pushed shift body ne fits =
      elim (Option-cases (next_line body)) [
        | inl e ↦
            ((kids, body), config_parse-no_line fuel stray kids pushed shift body e, omega arith)
        | inr (split, e) ↦
            let fewer = newlines-next_line body split e in
            elim (Bool-cases (ltb shift (indent split.0))) [
              | inl d ↦
                  let start = if pushed then last_children kids else kids in
                  let (r, h, le) =
                    line-Leaves fuel stray start false body split ne e (omega arith) in
                  let next = if pushed then set_last_children kids r.0 else r.0 in
                  let (q, h', le') =
                    config_parse-Leaves fuel stray next pushed shift r.1 ne
                      (omega (arith, fewer)) in
                  (
                    q,
                    config_parse-round fuel stray kids pushed shift body split true
                          (ltb (indent split.0) shift) e d refl
                        ∙ ap (after_inner (config_parse fuel stray) kids pushed shift) h
                        ∙ h',
                    omega (arith, fewer),
                  )
              | inr d ↦ elim (Bool-cases (ltb (indent split.0) shift)) [
                | inl l ↦ (
                  (kids, body),
                  config_parse-round fuel stray kids pushed shift body split false true e d l,
                  omega arith,
                )
                | inr l ↦
                    let same : indent split.0 ≡ shift = ltb_antisym shift (indent split.0) d l in
                    let (r, h, le) =
                      taken-Leaves fuel stray kids pushed shift body split ne e same
                        (λ kids' pushed'.
                          config_parse-Leaves fuel stray kids' pushed' shift split.1 ne
                            (omega (arith, fewer))) in
                    (r, h, omega (arith, fewer))
              ]
            ]
      ]

  line-Leaves :
      (fuel stray : ℕ) (kids : ConfigNodes) (pushed : Bool) (body : Bytes) (split : Bytes × Bytes)
      → stray ≢ b' '
      → next_line body ≡ some split
      → 2 * newlines body ≤ fuel
      → Leaves (newlines split.1) (config_parse fuel stray kids pushed (indent split.0) body)
  line-Leaves zero stray kids pushed body split ne line fits =
      absurd (omega (arith, newlines-next_line body split line))
  line-Leaves (suc fuel) stray kids pushed body split ne line fits =
      taken-Leaves fuel stray kids pushed (indent split.0) body split ne line refl (λ kids' pushed'.
        config_parse-Leaves fuel stray kids' pushed' (indent split.0) split.1 ne
          (omega (arith, newlines-next_line body split line)))

-- Where the byte in front of a text is no blank, every text is parsed, with more fuel than two rounds
-- for each of its lines: `config_parse` comes to an end.
pub load_config_total :
    (fuel stray : ℕ) (content : Bytes)
    → stray ≢ b' '
    → 2 * newlines (c_str content) < fuel
    → (r : ConfigNodes × Bytes) × (load_config fuel stray content ≡ some r)
      × (newlines r.1 ≤ newlines (c_str content))
unfolding load_config
load_config_total fuel stray content ne fits =
    config_parse-Leaves fuel stray nil false 0 (c_str content) ne fits
