-- ===== src/Files/Whole.antt =====
-- What the two readers return, and which streams they leave open.
use solusek.Base.{
  ℕ, zero, suc, ◌+◌, ◌-◌, ◌%◌, ◌≤◌, ◌<◌, true, false, [], ◌∷◌, ◌++◌, ◌≡◌, refl, sym, ap, ◌∙◌, arith,
  Option, some, inl, inr, ltb, ltb→lt, lt→ltb, if◌then◌else◌, Bool-cases, Bytes, take, take_all,
  drop, take-append-drop, length, length-drop, u32_mod,
}
use solusek.Files.{
  Disk, Log, read_text, read_binary, fopen, read_text_file, binary_rounds, read_binary_file,
}

pub fopen_found :
    (d : Disk) (name content : Bytes) (l : Log)
    → d.open_file name ≡ some content
    → fopen d name l ≡ (some content, record { opened = name ∷ l.opened; handles = suc l.handles })
fopen_found d name content l e = ground arith

-- A text file that is there comes back whole, and its stream is closed.
pub read_text_file_whole :
    (d : Disk) (name content : Bytes) (l : Log)
    → d.open_file name ≡ some content
    → read_text_file d name l ≡ (content, record { opened = name ∷ l.opened; handles = l.handles })
unfolding read_text_file
read_text_file_whole d name [] l e = rw (e, read_text) (ground arith)
read_text_file_whole d name (c ∷ content) l e = rw (e, read_text) (ground arith)

take_nil : (k : ℕ) → take {A = ℕ} k [] ≡ []
take_nil zero = refl
take_nil (suc k) = refl

take-drop : (a b : ℕ) (xs : Bytes) → take a xs ++ take b (drop a xs) ≡ take (a + b) xs
take-drop zero b xs = ap (λ k. take k xs) (omega arith)
take-drop (suc a) b [] = take_nil b ∙ sym (take_nil (suc a + b))
take-drop (suc a) b (x ∷ xs) = ap (λ t. x ∷ t) (take-drop a b xs) ∙ ap (λ k. take k (x ∷ xs)) next
  where
    next : suc (a + b) ≡ suc a + b
    next = omega arith

binary_rounds_done :
    (fuel n rd : ℕ) (content r : Bytes)
    → length content ≤ n
    → 0 < fuel
    → binary_rounds fuel content n rd r ≡ some r
unfolding binary_rounds
binary_rounds_done zero n rd content r h k = elim k [ ]
binary_rounds_done (suc fuel) n rd content r h k =
    let e : ltb n (length content) ≡ false = ground arith in rw (e, binary_rounds)

binary_rounds_step :
    (fuel n : ℕ) (content r : Bytes)
    → n < length content
    → length content + 512 ≤ u32_mod
    → let rd = if ltb (length content) (n + 512) then length content - n else 512 in
      binary_rounds (suc fuel) content n 512 r
      ≡ binary_rounds fuel content (n + 512) rd (r ++ take rd (drop n content))
unfolding binary_rounds
binary_rounds_step fuel n content r h fits =
    let e : ltb n (length content) ≡ true = lt→ltb n (length content) h in
    let small : (n + 512) % u32_mod ≡ n + 512 = omega arith in rw (e, binary_rounds, small)

-- The rounds collect the file from the front.
binary_rounds_whole :
    (fuel n : ℕ) (content : Bytes)
    → length content + 512 ≤ u32_mod
    → length content < n + fuel
    → 0 < fuel
    → binary_rounds fuel content n 512 (take n content) ≡ some content
binary_rounds_whole zero n content fits h k = elim k [ ]
binary_rounds_whole (suc fuel) n content fits h k = elim (Bool-cases (ltb n (length content))) [
  | inr e ↦
      binary_rounds_done (suc fuel) n 512 content (take n content) (ground arith) k
      ∙ ap some (take_all n content (ground arith))
  | inl e ↦
      let lt = ltb→lt n (length content) e in
      binary_rounds_step fuel n content (take n content) lt fits
      ∙ elim (Bool-cases (ltb (length content) (n + 512))) [
        | inl last ↦
            let past = ltb→lt (length content) (n + 512) last in
            let rest : length (drop n content) ≤ length content - n =
              omega (arith, length-drop n content) in
            rw last (
              binary_rounds_done fuel (n + 512) (length content - n) content
                (take n content ++ take (length content - n) (drop n content)) (omega arith)
                (omega arith)
              ∙ ap (λ t. some (take n content ++ t))
                  (take_all (length content - n) (drop n content) rest)
              ∙ ap some (take-append-drop n content))
        | inr more ↦ rw more (
            ap (binary_rounds fuel content (n + 512) 512) (take-drop n 512 content)
            ∙ binary_rounds_whole fuel (n + 512) content fits (omega arith) (omega arith))
      ]
]

-- A binary file of at most 2^32 - 512 bytes that is there comes back whole; its stream stays
-- open.
pub read_binary_file_whole :
    (d : Disk) (name content : Bytes) (l : Log)
    → d.open_file name ≡ some content
    → length content + 512 ≤ u32_mod
    → read_binary_file d name l
      ≡ (some content, record { opened = name ∷ l.opened; handles = suc l.handles })
unfolding read_binary_file
read_binary_file_whole d name content l e fits =
    ap read_binary (fopen_found d name content l e)
    ∙ (ap (λ (r : Option Bytes). (r, record { opened = name ∷ l.opened; handles = suc l.handles }))
        (binary_rounds_whole (suc (length content)) 0 content fits (omega arith) (omega arith)))

-- The loop ends with the whole file.
pub binary_rounds_ends :
    (content : Bytes)
    → length content + 512 ≤ u32_mod
    → (r : Bytes) × (binary_rounds (suc (length content)) content 0 512 [] ≡ some r)
binary_rounds_ends content fits =
    (content, binary_rounds_whole (suc (length content)) 0 content fits (omega arith) (omega arith))
