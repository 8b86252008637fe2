-- ===== src/Config/Steps.antt =====
-- `config_parse` by its steps, without fuel.
use solusek.Base.{
  ℕ, zero, suc, ◌+◌, ◌≤◌, ◌<◌, Bool, true, false, ◌||◌, Option, none, some, ltb, if◌then◌else◌,
  Bytes, ◌≡◌, refl, sym, ap, ◌∙◌, arith, drop, lt→ltb, some_inj,
}
use solusek.Config.{
  ConfigNodes, last_children, set_last_children, indent, add_line, next_line, ConfigParse,
  after_inner, after_line, by_depth, parse_round, config_parse,
}

-- What the first returns, the second returns.
abbrev Extends : ConfigParse → ConfigParse → Type 0
Extends f g =
    (kids : ConfigNodes) (pushed : Bool) (shift : ℕ) (body : Bytes) (r : ConfigNodes × Bytes)
    → f kids pushed shift body ≡ some r
    → g kids pushed shift body ≡ some r

after_inner-Extends :
    (f g : ConfigParse) (kids : ConfigNodes) (pushed : Bool) (shift : ℕ)
    (a b : Option (ConfigNodes × Bytes)) (r : ConfigNodes × Bytes)
    → Extends f g
    → ((q : ConfigNodes × Bytes) → a ≡ some q → b ≡ some q)
    → after_inner f kids pushed shift a ≡ some r
    → after_inner g kids pushed shift b ≡ some r
after_inner-Extends f g kids pushed shift none b r ext h e = absurd (cc)
after_inner-Extends f g kids pushed shift (some q) b r ext h e =
    ap (after_inner g kids pushed shift) (h q refl) ∙ ext _ pushed shift q.1 r e

after_line-Extends :
    (f g : ConfigParse) (pushed : Bool) (shift : ℕ) (rest : Bytes) (a : Option (ConfigNodes × Bool))
    (r : ConfigNodes × Bytes)
    → Extends f g
    → after_line f pushed shift rest a ≡ some r
    → after_line g pushed shift rest a ≡ some r
after_line-Extends f g pushed shift rest none r ext e = absurd (cc)
after_line-Extends f g pushed shift rest (some q) r ext e = ext q.0 (pushed || q.1) shift rest r e

by_depth-Extends :
    (f g : ConfigParse) (stray : ℕ) (kids : ConfigNodes) (pushed : Bool) (shift : ℕ) (body : Bytes)
    (split : Bytes × Bytes) (deeper less : Bool) (r : ConfigNodes × Bytes)
    → Extends f g
    → by_depth f stray kids pushed shift body split deeper less ≡ some r
    → by_depth g stray kids pushed shift body split deeper less ≡ some r
by_depth-Extends f g stray kids pushed shift body split true less r ext e =
    let inner = if pushed then last_children kids else kids in
    after_inner-Extends f g kids pushed shift (f inner false (indent split.0) body)
      (g inner false (indent split.0) body) r ext (ext inner false (indent split.0) body) e
by_depth-Extends f g stray kids pushed shift body split false true r ext e = e
by_depth-Extends f g stray kids pushed shift body split false false r ext e =
    after_line-Extends f g pushed shift split.1
      (add_line stray (drop (indent split.0) split.0) kids) r ext e

parse_round-Extends :
    (f g : ConfigParse) (stray : ℕ) (kids : ConfigNodes) (pushed : Bool) (shift : ℕ) (body : Bytes)
    (split : Option (Bytes × Bytes)) (r : ConfigNodes × Bytes)
    → Extends f g
    → parse_round f stray kids pushed shift body split ≡ some r
    → parse_round g stray kids pushed shift body split ≡ some r
parse_round-Extends f g stray kids pushed shift body none r ext e = e
parse_round-Extends f g stray kids pushed shift body (some split) r ext e =
    by_depth-Extends f g stray kids pushed shift body split (ltb shift (indent split.0))
      (ltb (indent split.0) shift) r ext e

config_parse-suc :
    (fuel stray : ℕ) → Extends (config_parse fuel stray) (config_parse (suc fuel) stray)
unfolding config_parse
config_parse-suc zero stray kids pushed shift body r e = absurd (cc)
config_parse-suc (suc fuel) stray kids pushed shift body r e =
    parse_round-Extends (config_parse fuel stray) (config_parse (suc fuel) stray) stray kids pushed
      shift body (next_line body) r (config_parse-suc fuel stray) e

-- More fuel does not change a result.
pub config_parse-add :
    (more fuel stray : ℕ) → Extends (config_parse fuel stray) (config_parse (more + fuel) stray)
config_parse-add zero fuel stray kids pushed shift body r e =
    ap (λ n. config_parse n stray kids pushed shift body) (omega arith) ∙ e
config_parse-add (suc more) fuel stray kids pushed shift body r e =
    ap (λ n. config_parse n stray kids pushed shift body) (omega arith)
    ∙ config_parse-suc (more + fuel) stray kids pushed shift body r
        (config_parse-add more fuel stray kids pushed shift body r e)

-- Two runs that return give the same.
pub config_parse_unique :
    (fuel fuel' stray : ℕ) (kids : ConfigNodes) (pushed : Bool) (shift : ℕ) (body : Bytes)
    (r r' : ConfigNodes × Bytes)
    → config_parse fuel stray kids pushed shift body ≡ some r
    → config_parse fuel' stray kids pushed shift body ≡ some r'
    → r ≡ r'
config_parse_unique fuel fuel' stray kids pushed shift body r r' e e' =
    let h = config_parse-add fuel' fuel stray kids pushed shift body r e in
    let h' = config_parse-add fuel fuel' stray kids pushed shift body r' e' in
    let same : fuel' + fuel ≡ fuel + fuel' = omega arith in
    some_inj (sym h ∙ ap (λ n. config_parse n stray kids pushed shift body) same ∙ h')

-- With some fuel the rest of the loop returns this.
abbrev pub Returns : ℕ → ConfigNodes → Bool → ℕ → Bytes → ConfigNodes × Bytes → Type 0
Returns stray kids pushed shift body r =
    (fuel : ℕ) × (config_parse fuel stray kids pushed shift body ≡ some r)

pub config_parse-no_line :
    (fuel stray : ℕ) (kids : ConfigNodes) (pushed : Bool) (shift : ℕ) (body : Bytes)
    → next_line body ≡ none
    → config_parse (suc fuel) stray kids pushed shift body ≡ some (kids, body)
unfolding config_parse
config_parse-no_line fuel stray kids pushed shift body e =
    ap (parse_round (config_parse fuel stray) stray kids pushed shift body) e

-- One round on a line, by how deep it stands.
pub config_parse-round :
    (fuel stray : ℕ) (kids : ConfigNodes) (pushed : Bool) (shift : ℕ) (body : Bytes)
    (split : Bytes × Bytes) (deeper less : Bool)
    → next_line body ≡ some split
    → ltb shift (indent split.0) ≡ deeper
    → ltb (indent split.0) shift ≡ less
    → config_parse (suc fuel) stray kids pushed shift body
      ≡ by_depth (config_parse fuel stray) stray kids pushed shift body split deeper less
unfolding config_parse
config_parse-round fuel stray kids pushed shift body split deeper less e d l =
    let f = config_parse fuel stray in
    ap (parse_round f stray kids pushed shift body) e
    ∙ ap (λ t. by_depth f stray kids pushed shift body split t (ltb (indent split.0) shift)) d
    ∙ ap (by_depth f stray kids pushed shift body split deeper) l

pub ltb-of_le : (a b : ℕ) → b ≤ a → ltb a b ≡ false
ltb-of_le a b h = ground arith

module _ (stray : ℕ) (kids : ConfigNodes) (pushed : Bool) (shift : ℕ) (body : Bytes)
    (split : Bytes × Bytes) (line : next_line body ≡ some split) where
  pub Returns-less_deep : indent split.0 < shift → Returns stray kids pushed shift body (kids, body)
  Returns-less_deep less = (
    1,
    config_parse-round 0 stray kids pushed shift body split false true line
        (ltb-of_le shift (indent split.0) (omega arith)) (lt→ltb (indent split.0) shift less),
  )

  pub Returns-line :
      (added : ConfigNodes × Bool) (r : ConfigNodes × Bytes)
      → indent split.0 ≡ shift
      → add_line stray (drop (indent split.0) split.0) kids ≡ some added
      → Returns stray added.0 (pushed || added.1) shift split.1 r
      → Returns stray kids pushed shift body r
  Returns-line added r same add (fuel, e) = (
    suc fuel,
    config_parse-round fuel stray kids pushed shift body split false false line
          (ltb-of_le shift (indent split.0) (omega arith))
          (ltb-of_le (indent split.0) shift (omega arith))
        ∙ ap (after_line (config_parse fuel stray) pushed shift split.1) add
        ∙ e,
  )

  pub Returns-deeper :
      (inner r : ConfigNodes × Bytes)
      → shift < indent split.0
      → Returns stray
          (if pushed then last_children kids else kids)
          false
          (indent split.0)
          body
          inner
      → Returns stray
          (if pushed then set_last_children kids inner.0 else inner.0)
          pushed
          shift
          inner.1
          r
      → Returns stray kids pushed shift body r
  Returns-deeper inner r more (fuel, e) (fuel', e') =
      let f = config_parse (fuel' + fuel) stray in
      let h =
        config_parse-add fuel' fuel stray (if pushed then last_children kids else kids) false
          (indent split.0) body inner e in
      let h' =
        config_parse-add fuel fuel' stray
          (if pushed then set_last_children kids inner.0 else inner.0) pushed shift inner.1 r e' in
      let swap : fuel' + fuel ≡ fuel + fuel' = omega arith in
      (
        suc (fuel' + fuel),
        config_parse-round (fuel' + fuel) stray kids pushed shift body split true false line
              (lt→ltb shift (indent split.0) more) (ltb-of_le (indent split.0) shift (omega arith))
            ∙ ap (after_inner f kids pushed shift) h
            ∙ ap
                (λ n.
                  config_parse n stray (if pushed then set_last_children kids inner.0 else inner.0)
                    pushed shift inner.1)
                swap
            ∙ h',
      )
