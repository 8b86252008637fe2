-- ===== src/Socket/Access/Ranges.antt =====
-- Ranges of dotted addresses.
use solusek.Base.{
  ℕ, suc, ◌+◌, ◌%◌, ◌<◌, false, ◌&&◌, [], ◌∷◌, ◌++◌, ◌≡◌, refl, sym, ap, ◌∙◌, arith, some, ◌==◌,
  ltb, leb, Bytes, str_eq_refl, find_last_of-append, take, drop, take-append, drop_past, length,
  length-append, c_str, c_str-Lacks, append-nil, u32_mod, npos, u32_of_pos,
}
use solusek.Decimal.{atoi, print_nat}
use solusek.Decimal.RoundTrip.{atoi-print_nat, print_nat-Lacks}
use solusek.Socket.Access.{short_of_int, substr_from, compare_last, range_at, is_addr_in_range}

-- An address: a network and the number of a host in it.
abbrev pub dotted : Bytes → ℕ → Bytes
dotted net n = net ++ b'.' ∷ print_nat n

take-same : (a b t : Bytes) → length a ≡ length b → take (length a) (b ++ t) ≡ b
take-same a b t e = ap (λ n. take n (b ++ t)) e ∙ take-append b t

drop-same :
    (a b : Bytes) (x : ℕ) (t : Bytes) → length a ≡ length b → drop (suc (length a)) (b ++ x ∷ t) ≡ t
drop-same a b x t e = ap (λ n. drop (suc n) (b ++ x ∷ t)) e ∙ drop_past b x t

substr_from-dotted :
    (net net' : Bytes) (n : ℕ)
    → length net' ≡ length net
    → substr_from (suc (length net)) (dotted net' n) ≡ some (print_nat n)
substr_from-dotted net net' n same =
    let fits : ltb (length (dotted net' n)) (suc (length net)) ≡ false =
      ground (arith, same, length-append net' (b'.' ∷ print_nat n)) in
    rw fits (ap some (drop-same net net' b'.' (print_nat n) (sym same)))

short-print_nat : (n : ℕ) → n < 32768 → short_of_int (atoi (c_str (print_nat n))) ≡ n + 32768
short-print_nat n h =
    ap (λ (s : Bytes). short_of_int (atoi s))
      (c_str-Lacks (print_nat n) (print_nat-Lacks 0 n refl) ∙ sym (append-nil (print_nat n)))
    ∙ ap short_of_int (atoi-print_nat n [] (omega arith) tt)
    ∙ omega arith

compare_last-print_nat :
    (a b n : ℕ)
    → a < 32768
    → b < 32768
    → n < 32768
    → compare_last (some (print_nat a)) (some (print_nat b)) (some (print_nat n))
      ≡ some (leb n b && leb a n)
unfolding compare_last
compare_last-print_nat a b n ha hb hn =
    rw (short-print_nat a ha, short-print_nat b hb, short-print_nat n hn) (ground arith)

range_at-dotted :
    (net net' : Bytes) (a b n : ℕ)
    → length net' ≡ length net
    → length net + 1 < u32_mod
    → range_at (length net) (dotted net n) (dotted net a) (dotted net' b)
      ≡ compare_last (some (print_nat a)) (some (print_nat b)) (some (print_nat n))
unfolding range_at
range_at-dotted net net' a b n same fits =
    let far : (length net == npos) ≡ false = ground arith in
    let i : (length net + 1) % u32_mod ≡ suc (length net) = omega arith in
    let long : ltb (length (dotted net' b)) (length net) ≡ false =
      ground (arith, same, length-append net' (b'.' ∷ print_nat b)) in
    rw
      (
        far,
        long,
        take-append net (b'.' ∷ print_nat a),
        take-append net (b'.' ∷ print_nat n),
        str_eq_refl net,
        i,
      )
      (rw
        (
          substr_from-dotted net net a refl,
          substr_from-dotted net net' b same,
          substr_from-dotted net net n refl,
        )
        refl)

-- For numbers below 2^15 and networks shorter than 2^32 - 1: an address lies in a range of its
-- network when its last number lies between theirs. Of the end of the range only the last number
-- counts, if its network is as long.
pub is_addr_in_range-dotted :
    (net net' : Bytes) (a b n : ℕ)
    → length net' ≡ length net
    → length net + 1 < u32_mod
    → a < 32768
    → b < 32768
    → n < 32768
    → is_addr_in_range (dotted net n) (dotted net a) (dotted net' b) ≡ some (leb n b && leb a n)
unfolding is_addr_in_range
is_addr_in_range-dotted net net' a b n same fits ha hb hn =
    let addr = dotted net n in
    let from = dotted net a in
    let to = dotted net' b in
    ap (λ o. range_at (u32_of_pos o) addr from to)
      (find_last_of-append b'.' net (print_nat a) (print_nat-Lacks b'.' a refl))
    ∙ ap (λ k. range_at k addr from to) (omega arith)
    ∙ range_at-dotted net net' a b n same fits
    ∙ compare_last-print_nat a b n ha hb hn
