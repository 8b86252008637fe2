-- ===== src/Text/Replace.antt =====
-- `replaceAll`: it ends for every pattern that is not empty, and what it builds.
use solusek.Base.{
  ℕ, zero, suc, ◌<◌, true, [], ◌∷◌, ◌++◌, ◌≡◌, ◌≢◌, refl, sym, ap, ◌∙◌, inl, inr, arith, none, some,
  ◌==◌, if◌then◌else◌, Bytes, find_str, starts_with, take, drop, length, append_assoc,
  take-append-drop, length-drop, Option-cases,
}
use solusek.Text.{replace_rounds, replace_all}

-- An occurrence leaves room for the pattern.
starts_with-append : (p s : Bytes) → starts_with p s ≡ true → s ≡ p ++ drop (length p) s
starts_with-append [] s h = refl
starts_with-append (x ∷ p) [] h = cc
starts_with-append (x ∷ p) (y ∷ s) h = ground (arith, starts_with-append p s)

find_str-starts_with :
    (p s : Bytes) (i : ℕ) → find_str p s ≡ some i → starts_with p (drop i s) ≡ true
find_str-starts_with p [] zero h = ground arith
find_str-starts_with p [] (suc i) h = absurd (ground arith)
find_str-starts_with p (x ∷ s) zero h = ground arith
find_str-starts_with p (x ∷ s) (suc i) h = ground (arith, find_str-starts_with p s i)

-- What is left behind an occurrence is shorter.
rest-lt :
    (from source : Bytes) (p : ℕ)
    → from ≢ []
    → find_str from source ≡ some p
    → length (drop (length from) (drop p source)) < length source
rest-lt [] source p ne h = absurd (ne refl)
rest-lt (c ∷ from) [] p ne h = absurd (cc)
rest-lt (c ∷ from) (x ∷ s) p ne h =
    omega (arith, length-drop (length (c ∷ from)) (drop p (x ∷ s)), length-drop p (x ∷ s))

replace_rounds_total :
    (fuel : ℕ) (source from to out : Bytes)
    → from ≢ []
    → length source < fuel
    → (r : Bytes) × (replace_rounds fuel source from to out ≡ some r)
unfolding replace_rounds
replace_rounds_total zero source from to out ne h = elim h [ ]
replace_rounds_total (suc fuel) source from to out ne h =
    elim (Option-cases (find_str from source)) [
      | inl e ↦ (out ++ source, rw (e, replace_rounds))
      | inr (p, e) ↦
          let (r, eq) =
            replace_rounds_total fuel (drop (length from) (drop p source)) from to
              ((out ++ take p source) ++ to) ne (omega (arith, rest-lt from source p ne e)) in
          (r, rw (e, replace_rounds) eq)
    ]

-- For every pattern that is not empty the loop ends with a text.
pub replace_all_total :
    (source from to : Bytes) → from ≢ [] → (r : Bytes) × (replace_all source from to ≡ some r)
unfolding replace_all
replace_all_total source from to ne =
    replace_rounds_total (suc (length source)) source from to [] ne (omega arith)

-- With an empty pattern no number of rounds is enough: every round finds it where it stands.
pub replace_rounds_diverges :
    (fuel : ℕ) (source to out : Bytes) → replace_rounds fuel source [] to out ≡ none
unfolding replace_rounds
replace_rounds_diverges zero source to out = refl
replace_rounds_diverges (suc fuel) [] to out =
    replace_rounds_diverges fuel [] to ((out ++ []) ++ to)
replace_rounds_diverges (suc fuel) (x ∷ s) to out =
    replace_rounds_diverges fuel (x ∷ s) to ((out ++ []) ++ to)

-- Every byte `c` becomes `to`, and every other byte stays.
abbrev pub substitute : ℕ → Bytes → Bytes → Bytes
substitute c to [] = []
substitute c to (x ∷ s) = if x == c then to ++ substitute c to s else x ∷ substitute c to s

substitute-none : (c : ℕ) (to s : Bytes) → find_str (c ∷ []) s ≡ none → substitute c to s ≡ s
substitute-none c to [] h = refl
substitute-none c to (x ∷ s) h = ground (arith, substitute-none c to s)

substitute-some :
    (c : ℕ) (to s : Bytes) (p : ℕ)
    → find_str (c ∷ []) s ≡ some p
    → substitute c to s ≡ take p s ++ (to ++ substitute c to (drop 1 (drop p s)))
substitute-some c to [] p h = absurd (cc)
substitute-some c to (x ∷ s) zero h = ground arith
substitute-some c to (x ∷ s) (suc p) h = ground (arith, substitute-some c to s p)

replace_rounds-substitute :
    (fuel : ℕ) (source : Bytes) (c : ℕ) (to out : Bytes)
    → length source < fuel
    → replace_rounds fuel source (c ∷ []) to out ≡ some (out ++ substitute c to source)
unfolding replace_rounds
replace_rounds-substitute zero source c to out h = elim h [ ]
replace_rounds-substitute (suc fuel) source c to out h =
    elim (Option-cases (find_str (c ∷ []) source)) [
      | inl e ↦ rw (e, replace_rounds) (rw (substitute-none c to source e))
      | inr (p, e) ↦
          rw (e, replace_rounds)
            (replace_rounds-substitute fuel (drop 1 (drop p source)) c to
                ((out ++ take p source) ++ to)
                (omega (arith, rest-lt (c ∷ []) source p (λ k. cc) e))
              ∙ ap some
                  (simp append_assoc (ap (λ t. out ++ t) (sym (substitute-some c to source p e)))))
    ]

-- With a pattern of one byte the result is the byte-wise substitution.
pub replace_all-substitute :
    (source : Bytes) (c : ℕ) (to : Bytes)
    → replace_all source (c ∷ []) to ≡ some (substitute c to source)
unfolding replace_all
replace_all-substitute source c to =
    replace_rounds-substitute (suc (length source)) source c to [] (omega arith)

-- One round takes the text apart at the occurrence.
occurrence_splits :
    (from source : Bytes) (p : ℕ)
    → find_str from source ≡ some p
    → take p source ++ (from ++ drop (length from) (drop p source)) ≡ source
occurrence_splits from source p e =
    ap (λ t. take p source ++ t)
      (sym (starts_with-append from (drop p source) (find_str-starts_with from source p e)))
    ∙ take-append-drop p source

replace_rounds_same :
    (fuel : ℕ) (source from out r : Bytes)
    → replace_rounds fuel source from from out ≡ some r
    → r ≡ out ++ source
unfolding replace_rounds
replace_rounds_same zero source from out r h = absurd (cc)
replace_rounds_same (suc fuel) source from out r h = elim (Option-cases (find_str from source)) [
  | inl e ↦ let h' = rw (e, replace_rounds) at h in cc
  | inr (p, e) ↦
      let rest = drop (length from) (drop p source) in
      replace_rounds_same fuel rest from ((out ++ take p source) ++ from) r
        (rw (e, replace_rounds) at h)
      ∙ simp append_assoc (ap (λ t. out ++ t) (occurrence_splits from source p e))
]

-- Replacing a pattern by itself changes nothing.
pub replace_all_same :
    (source from : Bytes) → from ≢ [] → replace_all source from from ≡ some source
unfolding replace_all
replace_all_same source from ne =
    let (r, e) = replace_all_total source from from ne in
    e ∙ ap some (replace_rounds_same (suc (length source)) source from [] r e)
