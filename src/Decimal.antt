-- ===== src/Decimal.antt =====
-- `sprintf("%i")`, `sprintf("%lu")`, `std::to_string` and `atoi`, as CNode.cpp, CClient.cpp and
-- CSession.cpp call them on decimal numbers.
pub mod RoundTrip
use solusek.Base.{
  ℕ, zero, suc, ◌+◌, ◌-◌, ◌*◌, ◌/◌, ◌%◌, Bool, true, false, ◌&&◌, List, [], ◌∷◌, leb, ltb, ◌==◌,
  if◌then◌else◌, Bytes, ℤ, pos, negsuc, u32_mod, codes, ◌≡◌, refl,
}
use solusek.Text.{isspace, ltrim}

abbrev pub is_digit : ℕ → Bool
is_digit c = leb b'0' c && leb c b'9'

-- The digits of `n` before `acc`; `suc n` rounds of fuel are enough, since each divides by ten.
digit_rounds : ℕ → ℕ → Bytes → Bytes
digit_rounds zero n acc = acc
digit_rounds (suc fuel) n acc = elim (ltb n 10) [
  | true ↦ (b'0' + n) ∷ acc
  | false ↦ digit_rounds fuel (n / 10) ((b'0' + n % 10) ∷ acc)
]

-- `%lu`, `%u`
unfoldable pub print_nat : ℕ → Bytes
unfolding digit_rounds
print_nat n = digit_rounds (suc n) n []

-- `%i`
unfoldable pub print_int : ℤ → Bytes
unfolding print_nat
print_int (pos n) = print_nat n
print_int (negsuc n) = b'-' ∷ print_nat (suc n)

-- The digits up to the first byte that is none, behind the value `n`.
unfoldable pub scan_digits : ℕ → Bytes → ℕ
scan_digits n [] = n
scan_digits n (c ∷ s) = if is_digit c then scan_digits (n * 10 + (c - b'0')) s else n

-- `(int)` of a `long` that is not negative.
abbrev pub int_of_nat : ℕ → ℤ
int_of_nat n = let m = n % u32_mod in if ltb m 2147483648 then pos m else negsuc ((u32_mod - 1) - m)

abbrev pub int_of_neg : ℕ → ℤ
int_of_neg n =
    let m = n % u32_mod in
    if m == 0 then pos 0 else if leb m 2147483648 then negsuc (m - 1) else pos (u32_mod - m)

unfoldable pub atoi_signed : Bytes → ℤ
unfolding scan_digits
atoi_signed [] = pos 0
atoi_signed (c ∷ s) =
    if c == b'-'
    then int_of_neg (scan_digits 0 s)
    else if c == b'+'
    then int_of_nat (scan_digits 0 s)
    else int_of_nat (scan_digits 0 (c ∷ s))

-- `(int) strtol(s, 0, 10)`, exact for values that fit in a `long`.
unfoldable pub atoi : Bytes → ℤ
unfolding ltrim atoi_signed
atoi s = atoi_signed (ltrim s)

print_nat_test : print_nat 40960 ≡ codes "40960"
unfolding print_nat
print_nat_test = refl

atoi_test : atoi (codes "  -12x") ≡ negsuc 11
unfolding atoi
atoi_test = refl
