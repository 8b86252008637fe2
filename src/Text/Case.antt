-- ===== src/Text/Case.antt =====
-- Letter case.
use solusek.Base.{ℕ, [], ◌∷◌, ◌≡◌, refl, ap, arith, Bytes, Lacks, false, ◌&&◌, leb}
use solusek.Text.{upper, lower, strtoupper, strtolower}

lower-upper : (c : ℕ) → lower (upper c) ≡ lower c
lower-upper c = ground arith

lower-lower : (c : ℕ) → lower (lower c) ≡ lower c
lower-lower c = ground arith

upper-lower : (c : ℕ) → upper (lower c) ≡ upper c
upper-lower c = ground arith

-- Changing case twice is changing it once, to the last case asked for.
pub case_last_wins :
    (s : Bytes)
    → (strtolower (strtoupper s) ≡ strtolower s)
      × (strtoupper (strtolower s) ≡ strtoupper s)
      × (strtolower (strtolower s) ≡ strtolower s)
unfolding strtolower strtoupper
case_last_wins [] = (refl, refl, refl)
case_last_wins (c ∷ s) =
    let (a, b, d) = case_last_wins s in
    (cc (lower-upper c, a), cc (upper-lower c, b), cc (lower-lower c, d))

pub strtolower_idem : (s : Bytes) → strtolower (strtolower s) ≡ strtolower s
strtolower_idem s = (case_last_wins s).2

-- No capital letter.
abbrev pub IsLower : Bytes → Type 0
IsLower [] = Unit
IsLower (c ∷ s) = ((leb 65 c && leb c 90) ≡ false) × IsLower s

pub strtolower_self : (s : Bytes) → IsLower s → strtolower s ≡ s
unfolding strtolower
strtolower_self [] h = refl
strtolower_self (c ∷ s) h = rw (h.0) (ap (◌∷◌ c) (strtolower_self s h.1))

pub strtolower-IsLower : (s : Bytes) → IsLower (strtolower s)
unfolding strtolower
strtolower-IsLower [] = tt
strtolower-IsLower (c ∷ s) = (ground arith, strtolower-IsLower s)

-- A byte that is no letter keeps away from a text through a change of case.
pub strtolower-Lacks :
    (b : ℕ) (s : Bytes) → (leb 97 b && leb b 122) ≡ false → Lacks b s → Lacks b (strtolower s)
unfolding strtolower
strtolower-Lacks b [] h k = tt
strtolower-Lacks b (c ∷ s) h k = (ground arith, strtolower-Lacks b s h k.1)
