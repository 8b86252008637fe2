-- ===== src/Text/Trim.antt =====
-- Trimming: what is left, and what is not changed.
use mathlib.Core.List.{reverse-append, reverse-reverse, reverse-cons}
use solusek.Base.{
  ℕ, true, false, inl, inr, [], ◌∷◌, ◌++◌, ◌≡◌, refl, sym, ap, ◌∙◌, subst, reverse, Bytes, All,
  All-append, Bool-cases,
}
use solusek.Text.{isspace, ltrim, rtrim, trim}

-- No space at the front.
abbrev pub Starts : Bytes → Type 0
Starts [] = Unit
Starts (c ∷ s) = isspace c ≡ false

abbrev pub Ends : Bytes → Type 0
Ends s = Starts (reverse s)

pub ltrim-Starts : (s : Bytes) → Starts (ltrim s)
unfolding ltrim
ltrim-Starts [] = tt
ltrim-Starts (c ∷ s) = elim (Bool-cases (isspace c)) [
  | inl e ↦ rw e (ltrim-Starts s)
  | inr e ↦ rw e e
]

pub ltrim_self : (s : Bytes) → Starts s → ltrim s ≡ s
unfolding ltrim
ltrim_self [] h = refl
ltrim_self (c ∷ s) h = rw h

-- What `ltrim` erased.
pub ltrim_prefix : (s : Bytes) → (p : Bytes) × (All (λ c. isspace c ≡ true) p) × (s ≡ p ++ ltrim s)
unfolding ltrim
ltrim_prefix [] = ([], tt, refl)
ltrim_prefix (c ∷ s) = elim (Bool-cases (isspace c)) [
  | inl e ↦ let (p, all, split) = ltrim_prefix s in (c ∷ p, (e, all), rw e (ap (◌∷◌ c) split))
  | inr e ↦ ([], tt, rw e)
]

pub ltrim-spaces : (p s : Bytes) → All (λ c. isspace c ≡ true) p → ltrim (p ++ s) ≡ ltrim s
unfolding ltrim
ltrim-spaces [] s h = refl
ltrim-spaces (c ∷ p) s h = rw (h.0) (ltrim-spaces p s h.1)

pub Starts-of_append : (s t : Bytes) → Starts (s ++ t) → Starts s
Starts-of_append [] t h = tt
Starts-of_append (c ∷ s) t h = h

-- What a trimmed text is.
pub trim_self : (s : Bytes) → Starts s → Ends s → trim s ≡ s
unfolding trim rtrim
trim_self s h k = rw (ltrim_self s h, ltrim_self (reverse s) k) (reverse-reverse s)

pub reverse-All : (P : ℕ → Type 0) (p : Bytes) → All P p → All P (reverse p)
reverse-All P [] h = tt
reverse-All P (c ∷ p) h =
    rw (reverse-cons c p) (All-append P (reverse p) (c ∷ []) (reverse-All P p h.1) (h.0, tt))

-- `trim` erases a run of spaces at each end, and nothing but them, and leaves no space at an end.
pub trim_splits :
    (s : Bytes)
    → (p : Bytes) × (q : Bytes) × (All (λ c. isspace c ≡ true) p)
      × (All (λ c. isspace c ≡ true) q)
      × (s ≡ p ++ (trim s ++ q))
      × Starts (trim s)
      × Ends (trim s)
unfolding trim rtrim
trim_splits s =
    let (p, all, front) = ltrim_prefix s in
    let (q, all', back) = ltrim_prefix (reverse (ltrim s)) in
    let whole : ltrim s ≡ rtrim (ltrim s) ++ reverse q =
      sym (reverse-reverse (ltrim s))
      ∙ ap reverse back
      ∙ reverse-append q (ltrim (reverse (ltrim s))) in
    (
      p,
      reverse q,
      all,
      reverse-All (λ c. isspace c ≡ true) q all',
      front ∙ ap (λ t. p ++ t) whole,
      Starts-of_append (rtrim (ltrim s)) (reverse q) (subst Starts whole (ltrim-Starts s)),
      rw reverse-reverse (ltrim-Starts (reverse (ltrim s))),
    )

-- Of spaces in front of a text with none at its ends `trim` leaves the text.
pub trim_padded :
    (p s : Bytes) → All (λ c. isspace c ≡ true) p → Starts s → Ends s → trim (p ++ s) ≡ s
unfolding trim rtrim
trim_padded p s hp h k =
    rw (ltrim-spaces p s hp, ltrim_self s h, ltrim_self (reverse s) k) (reverse-reverse s)
