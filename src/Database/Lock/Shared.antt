-- ===== src/Database/Lock/Shared.antt =====
-- That the flag excludes nothing.
use solusek.Base.{ℕ, zero, suc, Bool, true, false, List, [], ◌∷◌, ◌++◌, subst, append_assoc}
use solusek.Database.Lock.{
  Place, testing, setting, inside, outside, Spin, SpinStep, pass, set, again, SpinReach, here, more,
  copies, unlocked,
}

Reach-join : {a b c : Spin} → SpinReach a b → SpinReach b c → SpinReach a c
Reach-join r here = r
Reach-join r (more r' st) = more (Reach-join r r') st

-- A step that one thread can take while the flag stays as it is.
abbrev Moves : Bool → Place → Place → Type 0
Moves lock p q =
    (before behind : List Place)
    → SpinStep (record { lock = lock; places = before ++ p ∷ behind })
        (record { lock = lock; places = before ++ q ∷ behind })

-- All threads take it, one after the other.
move_all :
    (lock : Bool) (p q : Place) (before : List Place) (n : ℕ)
    → Moves lock p q
    → SpinReach
        (record { lock = lock; places = before ++ copies n p })
        (record { lock = lock; places = before ++ copies n q })
move_all lock p q before zero m = here
move_all lock p q before (suc n) m = Reach-join (more here (m before (copies n p))) (
    subst
      (λ l.
        SpinReach (record { lock = lock; places = l })
          (record { lock = lock; places = before ++ q ∷ copies n q }))
      (append_assoc before (q ∷ []) (copies n p))
      (subst
        (λ l.
          SpinReach (record { lock = lock; places = (before ++ q ∷ []) ++ copies n p })
            (record { lock = lock; places = l }))
        (append_assoc before (q ∷ []) (copies n q)) (move_all lock p q (before ++ q ∷ []) n m)))

-- However many threads there are, all of them can get to stand between `Lock = true` and `Lock = false`
-- at the same time.
pub unlocked-inside :
    (n : ℕ) → SpinReach (unlocked (suc n)) (record { lock = true; places = copies (suc n) inside })
unlocked-inside n = Reach-join (move_all false outside testing [] (suc n) (again false)) (
    Reach-join (move_all false testing setting [] (suc n) pass) (
      Reach-join (more here (set false [] (copies n setting)))
        (move_all true setting inside (inside ∷ []) n (set true))))
