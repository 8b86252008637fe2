-- ===== src/Database/Lock/Held.antt =====
-- That the flag is not set for good.
use solusek.Base.{ℕ, true, List, [], ◌∷◌, ◌++◌, ◌≡◌, refl, ◌≢◌, ap}
use solusek.Database.Lock.{
  Place, testing, inside, outside, Spin, SpinStep, pass, set, clear, again, SpinReach, here, more,
  unlocked,
}

-- Some thread is inside.
abbrev pub Holds : List Place → Type 0
Holds places = (before : List Place) × (behind : List Place) × (places ≡ before ++ inside ∷ behind)

-- A thread that is inside stays there when another one moves.
Holds-move :
    (p q : Place) (before behind : List Place)
    → p ≢ inside
    → Holds (before ++ p ∷ behind)
    → Holds (before ++ q ∷ behind)
Holds-move p q [] behind ne ([], b, e) = absurd (ne cc)
Holds-move p q [] behind ne (x ∷ a, b, e) = (q ∷ a, b, ap (λ l. q ∷ l) (cc))
Holds-move p q (y ∷ before) behind ne ([], b, e) = ([], before ++ q ∷ behind, cc)
Holds-move p q (y ∷ before) behind ne (x ∷ a, b, e) =
    let (a', b', e') = Holds-move p q before behind ne (a, b, cc) in
    (y ∷ a', b', ap (λ l. y ∷ l) e')

Step-Holds :
    (s t : Spin) → SpinStep s t → (s.lock ≡ true → Holds s.places) → t.lock ≡ true → Holds t.places
Step-Holds s t (pass before behind) h e = absurd (cc)
Step-Holds s t (set lock before behind) h e = (before, behind, refl)
Step-Holds s t (clear lock before behind) h e = absurd (cc)
Step-Holds s t (again lock before behind) h e =
    Holds-move outside testing before behind (λ k. cc) (h e)

-- Whatever the threads do, the flag is set only while some thread is between `Lock = true` and
-- `Lock = false`, and so is not left behind by a thread that has gone.
pub Reach-Holds : (n : ℕ) (t : Spin) → SpinReach (unlocked n) t → t.lock ≡ true → Holds t.places
Reach-Holds n t here e = absurd (cc)
Reach-Holds n t (more {t = s} r st) e = Step-Holds s t st (Reach-Holds n s r) e
