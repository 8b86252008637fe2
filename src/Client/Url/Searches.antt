-- ===== src/Client/Url/Searches.antt =====
-- Where the separators of an endpoint are found.
use solusek.Base.{
  ℕ, suc, ◌+◌, false, [], ◌∷◌, ◌++◌, ◌≡◌, ◌≢◌, refl, sym, ap, subst, ◌∙◌, arith, Option, none, some,
  Bytes, find, find-append, find_str, ==_refl, ◌==◌, starts_with-append, Lacks, length,
}
use mathlib.Core.Option
use solusek.Client.Url.{comes_first, without_credentials}

-- A path starts with a slash or is missing.
abbrev pub IsPath : Bytes → Type 0
IsPath [] = Unit
IsPath (c ∷ s) = c ≡ b'/'

abbrev shift : ℕ → Option ℕ → Option ℕ
shift k none = none
shift k (some n) = some (k + n)

shift_zero : (o : Option ℕ) → o ≡ shift 0 o
shift_zero none = refl
shift_zero (some n) = ap some (omega arith)

shift-suc : (k : ℕ) (o : Option ℕ) → Option.map suc (shift k o) ≡ shift (suc k) o
shift-suc k none = refl
shift-suc k (some n) = ap some (omega arith)

-- A byte is looked for behind a text without it.
find_behind : (c : ℕ) (a t : Bytes) → Lacks c a → find c (a ++ t) ≡ shift (length a) (find c t)
find_behind c [] t h = shift_zero (find c t)
find_behind c (x ∷ a) t h =
    let differ : (x == c) ≡ false = ground (arith, h.0) in
    rw differ (ap (Option.map suc) (find_behind c a t h.1) ∙ shift-suc (length a) (find c t))

pub find_str_word :
    (c : ℕ) (q p r : Bytes) → Lacks c p → find_str (c ∷ q) (p ++ (c ∷ (q ++ r))) ≡ some (length p)
find_str_word c q [] r h = rw (==_refl c, starts_with-append q r) refl
find_str_word c q (x ∷ p) r h =
    let differ : (c == x) ≡ false = ground (arith, h.0) in
    rw differ (ap (Option.map suc) (find_str_word c q p r h.1))

after_slash :
    (k : ℕ) (o : Option ℕ) → comes_first (shift k (Option.map suc o)) (some (k + 0)) ≡ false
after_slash k none = refl
after_slash k (some n) = ground arith

slash_first :
    (k : ℕ) (t : Bytes)
    → IsPath t
    → comes_first (shift k (find b'@' t)) (shift k (find b'/' t)) ≡ false
slash_first k [] h = refl
slash_first k (c ∷ t) h =
    subst (λ c. comes_first (shift k (find b'@' (c ∷ t))) (shift k (find b'/' (c ∷ t))) ≡ false)
      (sym h) (after_slash k (find b'@' t))

-- With no '@' in front of the path there are no credentials to drop.
pub without_credentials-bare :
    (a t : Bytes) → Lacks b'@' a → Lacks b'/' a → IsPath t → without_credentials (a ++ t) ≡ a ++ t
unfolding without_credentials
without_credentials-bare a t ha hs h =
    rw (find_behind b'@' a t ha, find_behind b'/' a t hs) (rw (slash_first (length a) t h) refl)

pub find_slash :
    (a t : Bytes) → Lacks b'/' a → IsPath t → t ≢ [] → find b'/' (a ++ t) ≡ some (length a)
find_slash a [] ha h ne = absurd (ne refl)
find_slash a (c ∷ t) ha h ne =
    subst (λ c. find b'/' (a ++ c ∷ t) ≡ some (length a)) (sym h) (find-append b'/' a t ha)
