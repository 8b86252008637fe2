-- ===== src/Base/Strings.antt =====
-- `std::string` as a list of bytes, with the member functions that the sources call.
use Prim.Native.Char.{code}
use Prim.Native.String.{String}
use Prim.Native.Nat.{ℕ, suc}
use mathlib.Core.Path.{◌≡◌, refl}
use mathlib.Core.Logic.{◌↔◌, ◌≢◌}
use mathlib.Core.Bool.{Bool, true, false, ◌&&◌}
use mathlib.Core.List.{List, [], ◌∷◌, ◌++◌}
use mathlib.Core.Option
use mathlib.Core.Option.{Option, none, some}
use native.Mathlib.Omega.{arith}
use solusek.Base.Tests.{◌==◌, if◌then◌else◌, ==_refl}
use solusek.Base.Lists.{length, All}

abbrev pub Bytes : Type 0
Bytes = List ℕ

-- The code points of a literal, its bytes since every literal here is ASCII.
abbrev pub codes : String → Bytes
codes String.[] = []
codes (String.◌∷◌ c s) = code c ∷ codes s

-- `operator==`
abbrev pub str_eq : Bytes → Bytes → Bool
str_eq [] [] = true
str_eq (x ∷ xs) (y ∷ ys) = (x == y) && str_eq xs ys
str_eq _ _ = false

-- `find(char)`: the first place of a byte; `none` is `npos`.
abbrev pub find : ℕ → Bytes → Option ℕ
find c [] = none
find c (x ∷ xs) = if x == c then some 0 else Option.map suc (find c xs)

-- `find_last_of(char)`: the last place of a byte.
abbrev pub find_last_of : ℕ → Bytes → Option ℕ
find_last_of c [] = none
find_last_of c (x ∷ xs) = elim (find_last_of c xs) [
  | none ↦ if x == c then some 0 else none
  | some i ↦ some (suc i)
]

abbrev pub starts_with : Bytes → Bytes → Bool
starts_with [] xs = true
starts_with (p ∷ ps) [] = false
starts_with (p ∷ ps) (x ∷ xs) = (p == x) && starts_with ps xs

-- `find(string)`: the first place where the pattern stands.
abbrev pub find_str : Bytes → Bytes → Option ℕ
find_str p [] = if starts_with p [] then some 0 else none
find_str p (x ∷ xs) = if starts_with p (x ∷ xs) then some 0 else Option.map suc (find_str p xs)

-- `c_str()` as its readers see it: the bytes before the first NUL.
abbrev pub c_str : Bytes → Bytes
c_str [] = []
c_str (x ∷ xs) = if x == 0 then [] else x ∷ c_str xs

-- `s[s.size() - 1]`; for an empty string the read is out of bounds and gives the byte `stray`.
abbrev pub last_byte : ℕ → Bytes → ℕ
last_byte stray [] = stray
last_byte stray (x ∷ xs) = last_byte x xs

-- `s.substr(0, s.size() - 1)`
abbrev pub drop_last : Bytes → Bytes
drop_last [] = []
drop_last (x ∷ []) = []
drop_last (x ∷ y ∷ xs) = x ∷ drop_last (y ∷ xs)

abbrev pub is_empty : Bytes → Bool
is_empty [] = true
is_empty (x ∷ xs) = false

abbrev pub Lacks : ℕ → Bytes → Type 0
Lacks b = All (λ c. c ≢ b)

pub str_eq_iff : (a b : Bytes) → (str_eq a b ≡ true) ↔ (a ≡ b)
str_eq_iff [] [] = ground arith
str_eq_iff [] (y ∷ ys) = ground arith
str_eq_iff (x ∷ xs) [] = ground arith
str_eq_iff (x ∷ xs) (y ∷ ys) = ground (arith, str_eq_iff xs ys)

pub str_eq_refl : (a : Bytes) → str_eq a a ≡ true
str_eq_refl a = (str_eq_iff a a).1 refl

pub find-Lacks : (c : ℕ) (s : Bytes) → Lacks c s → find c s ≡ none
find-Lacks c [] h = refl
find-Lacks c (x ∷ xs) h = ground (arith, find-Lacks c xs h.1)

pub find-append : (c : ℕ) (s rest : Bytes) → Lacks c s → find c (s ++ c ∷ rest) ≡ some (length s)
find-append c [] rest h = rw ==_refl
find-append c (x ∷ xs) rest h = ground (arith, find-append c xs rest h.1)

pub find_last_of-Lacks : (c : ℕ) (s : Bytes) → Lacks c s → find_last_of c s ≡ none
find_last_of-Lacks c [] h = refl
find_last_of-Lacks c (x ∷ xs) h = ground (arith, find_last_of-Lacks c xs h.1)

pub find_last_of-append :
    (c : ℕ) (s rest : Bytes) → Lacks c rest → find_last_of c (s ++ c ∷ rest) ≡ some (length s)
find_last_of-append c [] rest h = ground (arith, find_last_of-Lacks c rest h)
find_last_of-append c (x ∷ xs) rest h = ground (arith, find_last_of-append c xs rest h)

pub c_str-Lacks : (s : Bytes) → Lacks 0 s → c_str s ≡ s
c_str-Lacks [] h = refl
c_str-Lacks (x ∷ xs) h = ground (arith, c_str-Lacks xs h.1)

pub c_str_nul : (s t : Bytes) → Lacks 0 s → c_str (s ++ 0 ∷ t) ≡ s
c_str_nul [] t h = refl
c_str_nul (x ∷ xs) t h = ground (arith, c_str_nul xs t h.1)

pub starts_with-append : (p s : Bytes) → starts_with p (p ++ s) ≡ true
starts_with-append [] s = refl
starts_with-append (x ∷ p) s = ground (arith, starts_with-append p s)

-- A pattern that stands somewhere is found.
pub find_str_complete : (a p b : Bytes) → find_str p (a ++ (p ++ b)) ≡ none → ⊥
find_str_complete [] [] [] h = cc
find_str_complete [] [] (y ∷ b) h = cc
find_str_complete [] (x ∷ p) b h = ground (arith, starts_with-append p b)
find_str_complete (x ∷ a) p b h = ground (arith, find_str_complete a p b)

pub last_byte-append :
    (stray : ℕ) (s : Bytes) (x : ℕ) (t : Bytes)
    → last_byte stray (s ++ x ∷ t) ≡ last_byte stray (x ∷ t)
last_byte-append stray [] x t = refl
last_byte-append stray (y ∷ []) x t = refl
last_byte-append stray (y ∷ z ∷ s) x t = last_byte-append z s x t
