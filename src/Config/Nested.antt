-- ===== src/Config/Nested.antt =====
-- A printed tree of settings, read back.
use solusek.Base.{
  ℕ, ◌*◌, ◌<◌, Bool, true, false, ◌||◌, none, some, ◌⊎◌, inl, inr, Bytes, [], ◌∷◌, ◌++◌, ◌≡◌, ◌≢◌,
  refl, sym, ap, ◌∙◌, subst, arith, c_str-Lacks, drop, Lacks, append-nil,
}
use solusek.Config.{
  ConfigNode, node, ConfigNodes, nil, cons, push_node, last_children, set_last_children, indent,
  add_line, next_line, config_parse, load_config,
}
use solusek.Config.Steps.{
  Returns, config_parse-no_line, Returns-less_deep, Returns-line, Returns-deeper,
  config_parse_unique,
}
use solusek.Config.Total.{newlines, load_config_total}
use solusek.Config.Printed.{
  setting_line, deeper, nodes_text, AllSettings, indent-setting, drop-blanks, add_line-setting,
  next_line-nodes,
}

-- Nothing, or a line that stands less deep.
abbrev Below : ℕ → Bytes → Type 0
Below depth rest =
    (next_line rest ≡ none)
    ⊎ ((split : Bytes × Bytes) × (next_line rest ≡ some split) × (indent split.0 < depth))

last_children-push :
    (kids : ConfigNodes) (name val : Bytes) (ks : ConfigNodes)
    → last_children (push_node kids (node name val ks)) ≡ ks
unfolding last_children push_node
last_children-push nil name val ks = refl
last_children-push (cons m nil) name val ks = refl
last_children-push (cons m (cons k ns)) name val ks = last_children-push (cons k ns) name val ks

set_last_children-push :
    (kids : ConfigNodes) (name val : Bytes) (old ks : ConfigNodes)
    → set_last_children (push_node kids (node name val old)) ks ≡ push_node kids (node name val ks)
unfolding set_last_children push_node
set_last_children-push nil name val old ks = refl
set_last_children-push (cons m nil) name val old ks = refl
set_last_children-push (cons m (cons k ns)) name val old ks =
    ap (cons m) (set_last_children-push (cons k ns) name val old ks)

abbrev join_nodes : ConfigNodes → ConfigNodes → ConfigNodes
join_nodes nil ms = ms
join_nodes (cons n ns) ms = cons n (join_nodes ns ms)

push_node-join :
    (ns : ConfigNodes) (n : ConfigNode) (ms : ConfigNodes)
    → join_nodes (push_node ns n) ms ≡ join_nodes ns (cons n ms)
unfolding push_node
push_node-join nil n ms = refl
push_node-join (cons m ns) n ms = ap (cons m) (push_node-join ns n ms)

join_nodes-nil : (ns : ConfigNodes) → join_nodes ns nil ≡ ns
join_nodes-nil nil = refl
join_nodes-nil (cons n ns) = ap (cons n) (join_nodes-nil ns)

-- Behind a setting's line: its children are parsed into it, and what follows goes on behind it.
Returns-children :
    (stray step depth : ℕ) (kids : ConfigNodes) (name val : Bytes) (ks : ConfigNodes) (rest : Bytes)
    (r : ConfigNodes × Bytes)
    → AllSettings ks
    → Returns stray nil false
        (deeper step depth)
        (nodes_text step (deeper step depth) ks ++ rest)
        (ks, rest)
    → Returns stray (push_node kids (node name val ks)) true depth rest r
    → Returns stray
        (push_node kids (node name val nil))
        true
        depth
        (nodes_text step (deeper step depth) ks ++ rest)
        r
Returns-children stray step depth kids name val nil rest r h inner after = after
Returns-children stray step depth kids name val (cons (node n v ks) ns) rest r h inner after =
    let all = cons (node n v ks) ns in
    let depth' = deeper step depth in
    let body = nodes_text step depth' all ++ rest in
    let before = push_node kids (node name val nil) in
    let at : indent (setting_line depth' n v) ≡ depth' = indent-setting depth' n v h.0.flush in
    Returns-deeper stray before true depth body
      (
        setting_line depth' n v,
        nodes_text step (deeper step depth') ks ++ (nodes_text step depth' ns ++ rest),
      )
      (next_line-nodes step depth' n v ks ns rest h.0) (all, rest) r (omega (arith, at))
      (subst (λ k. Returns stray k false (indent (setting_line depth' n v)) body (all, rest))
        (sym (last_children-push kids name val nil))
        (subst (λ d. Returns stray nil false d body (all, rest)) (sym at) inner))
      (subst (λ k. Returns stray k true depth rest r)
        (sym (set_last_children-push kids name val nil all)) after)

Below-nodes :
    (step depth : ℕ) (ns : ConfigNodes) (rest : Bytes)
    → AllSettings ns
    → Below depth rest
    → Below (deeper step depth) (nodes_text step depth ns ++ rest)
Below-nodes step depth nil rest h (inl e) = inl e
Below-nodes step depth nil rest h (inr (split, e, less)) = inr (split, e, omega arith)
Below-nodes step depth (cons (node n v ks) ns) rest h b = inr (
  (
    setting_line depth n v,
    nodes_text step (deeper step depth) ks ++ (nodes_text step depth ns ++ rest),
  ),
  next_line-nodes step depth n v ks ns rest h.0,
  omega (arith, indent-setting depth n v h.0.flush),
)

Returns-Below :
    (stray depth : ℕ) (kids : ConfigNodes) (pushed : Bool) (rest : Bytes)
    → Below depth rest
    → Returns stray kids pushed depth rest (kids, rest)
Returns-Below stray depth kids pushed rest (inl e) =
    (1, config_parse-no_line 0 stray kids pushed depth rest e)
Returns-Below stray depth kids pushed rest (inr (split, e, less)) =
    Returns-less_deep stray kids pushed depth rest split e less

or_true : (p : Bool) → (p || true) ≡ true
or_true true = refl
or_true false = refl

Returns-nodes :
    (stray step depth : ℕ) (kids : ConfigNodes) (pushed : Bool) (ns : ConfigNodes) (rest : Bytes)
    → stray ≢ b' '
    → AllSettings ns
    → Below depth rest
    → Returns stray kids pushed depth (nodes_text step depth ns ++ rest) (join_nodes kids ns, rest)
Returns-nodes stray step depth kids pushed nil rest ne h b =
    subst (λ k. Returns stray kids pushed depth rest (k, rest)) (sym (join_nodes-nil kids))
      (Returns-Below stray depth kids pushed rest b)
Returns-nodes stray step depth kids pushed (cons (node name val ks) ns) rest ne h b =
    let line = setting_line depth name val in
    let depth' = deeper step depth in
    let rest' = nodes_text step depth ns ++ rest in
    let at : indent line ≡ depth = indent-setting depth name val h.0.flush in
    let r : ConfigNodes × Bytes = (join_nodes kids (cons (node name val ks) ns), rest) in
    let after : Returns stray (push_node kids (node name val ks)) true depth rest' r =
      subst (λ k. Returns stray (push_node kids (node name val ks)) true depth rest' (k, rest))
        (push_node-join kids (node name val ks) ns)
        (Returns-nodes stray step depth (push_node kids (node name val ks)) true ns rest ne h.2
          b) in
    let inner =
      Returns-nodes stray step depth' nil false ks rest' ne h.1
        (Below-nodes step depth ns rest h.2 b) in
    let lines = Returns-children stray step depth kids name val ks rest' r h.1 inner after in
    Returns-line stray kids pushed depth
      (nodes_text step depth (cons (node name val ks) ns) ++ rest)
      (line, nodes_text step depth' ks ++ rest')
      (next_line-nodes step depth name val ks ns rest h.0)
      (push_node kids (node name val nil), true) r at
      (ap (λ d. add_line stray (drop d line) kids) at
        ∙ ap (λ t. add_line stray t kids) (drop-blanks depth (name ++ b':' ∷ b' ' ∷ val))
        ∙ add_line-setting stray kids name val ne h.0)
      (subst
        (λ p.
          Returns stray (push_node kids (node name val nil)) p depth
            (nodes_text step depth' ks ++ rest') r)
        (sym (or_true pushed)) lines)

-- A tree of settings, printed with each level behind the one above it by the same number of blanks,
-- is read back as it was, with more fuel than two rounds for each line, if the byte in front of a
-- text is no blank, no name is empty, begins with a tab or holds a colon, no name or value holds a
-- line end or has a blank at an end, and there is no NUL.
pub load_config-text :
    (fuel stray step : ℕ) (ns : ConfigNodes)
    → stray ≢ b' '
    → AllSettings ns
    → Lacks 0 (nodes_text step 0 ns)
    → 2 * newlines (nodes_text step 0 ns) < fuel
    → load_config fuel stray (nodes_text step 0 ns) ≡ some (ns, [])
unfolding load_config
load_config-text fuel stray step ns ne h nul fits =
    let text = nodes_text step 0 ns in
    let whole = c_str-Lacks text nul in
    let (r, e, le) =
      load_config_total fuel stray text ne (subst (λ t. 2 * newlines t < fuel) (sym whole) fits) in
    let (fuel', e') =
      subst (λ t. Returns stray nil false 0 t (ns, [])) (append-nil text)
        (Returns-nodes stray step 0 nil false ns [] ne h (inl refl)) in
    e
    ∙ ap some (
        config_parse_unique fuel fuel' stray nil false 0 text r (ns, [])
          (ap (config_parse fuel stray nil false 0) (sym whole) ∙ e) e')
