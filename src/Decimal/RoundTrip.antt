-- ===== src/Decimal/RoundTrip.antt =====
-- `atoi` reads back what the printers write.
use solusek.Base.{
  ℕ, zero, suc, ◌+◌, ◌/◌, ◌%◌, ◌<◌, true, false, [], ◌∷◌, ◌++◌, ltb, Bytes, All, pos, ◌≡◌, ◌≢◌,
  refl, ap, ◌∙◌, sym, arith, Bool-cases, inl, inr, Lacks,
}
use solusek.Text.{ltrim}
use solusek.Decimal.{is_digit, digit_rounds, print_nat, scan_digits, atoi_signed, atoi}

abbrev pub IsDigits : Bytes → Type 0
IsDigits = All (λ c. is_digit c ≡ true)

-- The first byte is no digit.
abbrev pub Stops : Bytes → Type 0
Stops [] = Unit
Stops (c ∷ s) = is_digit c ≡ false

digit_rounds-IsDigits :
    (fuel n : ℕ) (acc : Bytes) → IsDigits acc → IsDigits (digit_rounds fuel n acc)
unfolding digit_rounds
digit_rounds-IsDigits zero n acc h = h
digit_rounds-IsDigits (suc fuel) n acc h = elim (Bool-cases (ltb n 10)) [
  | inl e ↦ rw (e, digit_rounds) ((ground arith, h))
  | inr e ↦
      rw (e, digit_rounds)
        (digit_rounds-IsDigits fuel (n / 10) ((b'0' + n % 10) ∷ acc) (ground arith, h))
]

pub print_nat-IsDigits : (n : ℕ) → IsDigits (print_nat n)
unfolding print_nat
print_nat-IsDigits n = digit_rounds-IsDigits (suc n) n [] tt

digit_rounds-ne-nil : (fuel n : ℕ) (acc : Bytes) → acc ≢ [] → digit_rounds fuel n acc ≢ []
unfolding digit_rounds
digit_rounds-ne-nil zero n acc h = h
digit_rounds-ne-nil (suc fuel) n acc h = elim (Bool-cases (ltb n 10)) [
  | inl e ↦ rw (e, digit_rounds) (λ k. cc)
  | inr e ↦
      rw (e, digit_rounds) (digit_rounds-ne-nil fuel (n / 10) ((b'0' + n % 10) ∷ acc) (λ k. cc))
]

digit_rounds-suc-ne-nil : (fuel n : ℕ) (acc : Bytes) → digit_rounds (suc fuel) n acc ≢ []
unfolding digit_rounds
digit_rounds-suc-ne-nil fuel n acc = elim (Bool-cases (ltb n 10)) [
  | inl e ↦ rw (e, digit_rounds) (λ k. cc)
  | inr e ↦
      rw (e, digit_rounds) (digit_rounds-ne-nil fuel (n / 10) ((b'0' + n % 10) ∷ acc) (λ k. cc))
]

pub print_nat-ne-nil : (n : ℕ) → print_nat n ≢ []
unfolding print_nat
print_nat-ne-nil n = digit_rounds-suc-ne-nil n n []

scan-digit_rounds :
    (fuel n : ℕ) (acc rest : Bytes)
    → n < fuel
    → scan_digits 0 (digit_rounds fuel n acc ++ rest) ≡ scan_digits n (acc ++ rest)
unfolding digit_rounds scan_digits
scan-digit_rounds zero n acc rest h = elim h [ ]
scan-digit_rounds (suc fuel) n acc rest h = elim (Bool-cases (ltb n 10)) [
  | inl e ↦ rw (e, digit_rounds) (ground arith)
  | inr e ↦
      rw (e, digit_rounds)
        (scan-digit_rounds fuel (n / 10) ((b'0' + n % 10) ∷ acc) rest (ground arith) ∙ ground arith)
]

scan-Stops : (n : ℕ) (rest : Bytes) → Stops rest → scan_digits n rest ≡ n
unfolding scan_digits
scan-Stops n [] h = refl
scan-Stops n (c ∷ rest) h = rw h

pub scan-print_nat : (n : ℕ) (rest : Bytes) → Stops rest → scan_digits 0 (print_nat n ++ rest) ≡ n
unfolding print_nat
scan-print_nat n rest h = scan-digit_rounds (suc n) n [] rest (omega arith) ∙ scan-Stops n rest h

-- On text that starts with a digit there is neither space nor sign to skip.
atoi-digit :
    (s rest : Bytes)
    → IsDigits s
    → s ≢ []
    → scan_digits 0 (s ++ rest) < 2147483648
    → atoi (s ++ rest) ≡ pos (scan_digits 0 (s ++ rest))
unfolding atoi ltrim atoi_signed
atoi-digit [] rest h ne fits = absurd (ne refl)
atoi-digit (c ∷ s) rest h ne fits = ground arith

-- A number below 2^31 is read back from its decimal digits, whatever follows that is no digit.
pub atoi-print_nat :
    (n : ℕ) (rest : Bytes) → n < 2147483648 → Stops rest → atoi (print_nat n ++ rest) ≡ pos n
atoi-print_nat n rest fits h =
    let e = scan-print_nat n rest h in
    atoi-digit (print_nat n) rest (print_nat-IsDigits n) (print_nat-ne-nil n) (rw e fits) ∙ ap pos e

digits-Lacks : (b : ℕ) (s : Bytes) → is_digit b ≡ false → IsDigits s → Lacks b s
digits-Lacks b [] h k = tt
digits-Lacks b (c ∷ s) h k = (λ e. ground arith, digits-Lacks b s h k.1)

pub print_nat-Lacks : (b n : ℕ) → is_digit b ≡ false → Lacks b (print_nat n)
print_nat-Lacks b n h = digits-Lacks b (print_nat n) h (print_nat-IsDigits n)

-- Different numbers are printed differently.
pub print_nat_inj : (m n : ℕ) → print_nat m ≡ print_nat n → m ≡ n
print_nat_inj m n e =
    sym (scan-print_nat m [] tt) ∙ ap (λ s. scan_digits 0 (s ++ [])) e ∙ scan-print_nat n [] tt
