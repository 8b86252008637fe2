-- ===== src/Database/Lock.antt =====
-- `while(Lock) usleep(1); Lock = true; ... Lock = false;` of src/server/CTransaction.cpp, and the same
-- around `Hold` of src/server/CDatabase.cpp: each access of the flag is one step of a thread.
pub mod Shared
pub mod Held
use solusek.Base.{ℕ, zero, suc, Bool, true, false, List, [], ◌∷◌, ◌++◌, ◌≡◌}

-- Where a thread stands.
pub data Place : Type 0 where
  -- In the loop `while(Lock)`.
  testing : Place
  -- Behind the loop.
  setting : Place
  -- Behind `Lock = true`.
  inside : Place
  -- Behind `Lock = false`.
  outside : Place

-- The flag, and the threads.
pub record Spin : Type 0 where
  pub lock : Bool
  pub places : List Place

pub data SpinStep : Spin → Spin → Type 0 where
  pass :
      (before behind : List Place)
      → SpinStep
          (record { lock = false; places = before ++ testing ∷ behind })
          (record { lock = false; places = before ++ setting ∷ behind })
  set :
      (lock : Bool) (before behind : List Place)
      → SpinStep
          (record { lock = lock; places = before ++ setting ∷ behind })
          (record { lock = true; places = before ++ inside ∷ behind })
  clear :
      (lock : Bool) (before behind : List Place)
      → SpinStep
          (record { lock = lock; places = before ++ inside ∷ behind })
          (record { lock = false; places = before ++ outside ∷ behind })
  -- The next call of the thread.
  again :
      (lock : Bool) (before behind : List Place)
      → SpinStep
          (record { lock = lock; places = before ++ outside ∷ behind })
          (record { lock = lock; places = before ++ testing ∷ behind })

pub data SpinReach (s : Spin) : Spin → Type 0 where
  here : SpinReach s s
  more : {t u : Spin} → SpinReach s t → SpinStep t u → SpinReach s u

abbrev pub copies : ℕ → Place → List Place
copies zero p = []
copies (suc n) p = p ∷ copies n p

-- All threads before their first call: `Lock` is false.
abbrev pub unlocked : ℕ → Spin
unlocked n = record { lock = false; places = copies n outside }
