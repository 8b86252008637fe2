-- ===== src/Socket/Tls/Hex.antt =====
-- The text of a public key.
use solusek.Base.{
  ℕ, ◌+◌, ◌-◌, ◌*◌, ◌/◌, ◌%◌, ◌<◌, [], ◌∷◌, ◌≡◌, refl, sym, ap, ◌∙◌, arith, ltb, if◌then◌else◌,
  Bytes, All,
}
use solusek.Socket.Tls.{hex_char, uc2hexstr}

abbrev pub IsBytes : Bytes → Type 0
IsBytes = All (λ b. b < 256)

-- The value of a digit, and of a text of them.
abbrev pub digit_value : ℕ → ℕ
digit_value c = if ltb c 58 then c - b'0' else c - 87

abbrev pub from_hex : Bytes → Bytes
from_hex (c ∷ d ∷ s) = (digit_value c * 16 + digit_value d) ∷ from_hex s
from_hex s = []

digit_value-hex_char : (d : ℕ) → d < 16 → digit_value (hex_char d) ≡ d
digit_value-hex_char d h = ground arith

-- The text of a public key, read as hexadecimal digits, two for a byte, gives the bytes of the key.
pub from_hex-uc2hexstr : (buf : Bytes) → IsBytes buf → from_hex (uc2hexstr buf) ≡ buf
unfolding uc2hexstr
from_hex-uc2hexstr [] h = refl
from_hex-uc2hexstr (b ∷ buf) h =
    rw
      (
        digit_value-hex_char (b / 16) (omega arith),
        digit_value-hex_char (b % 16) (omega arith),
        from_hex-uc2hexstr buf h.1,
      )
      (ap (λ c. c ∷ buf) (omega arith))

-- Keys of the same text are the same bytes, so that comparing the texts compares the keys.
pub uc2hexstr_inj : (a b : Bytes) → IsBytes a → IsBytes b → uc2hexstr a ≡ uc2hexstr b → a ≡ b
uc2hexstr_inj a b h k e = sym (from_hex-uc2hexstr a h) ∙ ap from_hex e ∙ from_hex-uc2hexstr b k
