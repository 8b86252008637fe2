-- ===== src/Client/Request/Sent.antt =====
-- What of a request reaches the connection.
use solusek.Base.{
  ℕ, zero, suc, ◌+◌, ◌-◌, ◌≤◌, ◌<◌, List, [], ◌∷◌, ◌++◌, ◌≡◌, ◌≢◌, refl, sym, ap, subst, ◌∙◌, arith,
  Bytes, ltb, ltb→lt, if◌then◌else◌, take, drop, length, length-drop, take-append-drop, drop_all,
  concat, All, Bool-cases, inl, inr,
}
use solusek.Socket.{Output, wrote, write_all, Takes}
use solusek.Socket.Stream.{write_all-wrote}
use solusek.Client.{Client}
use solusek.Client.Url.{Target}
use solusek.Client.Request.{request_head, body_pieces, request_pieces, write_request}

-- A piece of the body: some bytes, 1024 at most.
abbrev pub IsPiece : Bytes → Type 0
IsPiece p = (0 < length p) × (length p ≤ 1024)

length-take_le : (n : ℕ) (xs : Bytes) → n ≤ length xs → length (take n xs) ≡ n
length-take_le zero xs h = refl
length-take_le (suc n) [] h = absurd (omega arith)
length-take_le (suc n) (x ∷ xs) h = ap suc (length-take_le n xs (omega arith))

drop-drop : (a b : ℕ) (xs : Bytes) → drop b (drop a xs) ≡ drop (a + b) xs
drop-drop zero b xs = ap (λ n. drop n xs) (omega arith)
drop-drop (suc a) b [] = drop_nil b ∙ sym (drop_nil (suc a + b))
  where
    drop_nil : (n : ℕ) → drop {A = ℕ} n [] ≡ []
    drop_nil zero = refl
    drop_nil (suc n) = refl
drop-drop (suc a) b (x ∷ xs) =
    let e : suc a + b ≡ suc (a + b) = omega arith in rw e (drop-drop a b xs)

-- The pieces from a place on: each is a piece, and together they are what is left.
record Splits (rest : Bytes) (ps : List Bytes) : Type 0 where
  whole : concat ps ≡ rest
  pieces : All IsPiece ps

body_pieces-Splits :
    (fuel : ℕ) (body : Bytes) (done chunk : ℕ)
    → done ≤ length body
    → (done < length body → (0 < chunk) × (chunk ≤ 1024))
    → length body - done < fuel
    → Splits (drop done body) (body_pieces fuel body done chunk)
unfolding body_pieces
body_pieces-Splits zero body done chunk le big fits = absurd (omega arith)
body_pieces-Splits (suc fuel) body done chunk le big fits =
    elim (Bool-cases (ltb done (length body))) [
      | inr e ↦
          rw (e, body_pieces)
            (record { whole = sym (drop_all done body (ground arith)); pieces = tt })
      | inl e ↦
          let more = ltb→lt done (length body) e in
          let size : ℕ = if ltb (length body) (done + chunk) then length body - done else chunk in
          let pos : 0 < size = ground (arith, big more) in
          let small : size ≤ 1024 = ground (arith, big more) in
          let room : size ≤ length body - done = ground arith in
          let long = length-take_le size (drop done body) (omega (arith, length-drop done body)) in
          let rest =
            body_pieces-Splits fuel body (done + size) size (omega arith) (λ k. (pos, small))
              (omega arith) in
          rw (e, body_pieces)
            (record {
              whole =
                  ap (λ t. take size (drop done body) ++ t)
                    (rest.whole ∙ sym (drop-drop done size body))
                  ∙ take-append-drop size (drop done body);
              pieces = ((omega (arith, long), omega (arith, long)), rest.pieces);
            })
    ]

-- The pieces of a request behind its head are the body in order, none of them empty or longer than
-- 1024 bytes.
pub request_pieces-Splits :
    (c : Client) (t : Target) (body : Bytes)
    → (ps : List Bytes) × (request_pieces c t body ≡ request_head c t body ∷ ps)
      × (concat ps ≡ body)
      × All IsPiece ps
unfolding request_pieces
request_pieces-Splits c t body =
    let s =
      body_pieces-Splits (suc (length body)) body 0 1024 (omega arith)
        (λ k. (omega arith, omega arith)) (omega arith) in
    (body_pieces (suc (length body)) body 0 1024, refl, s.whole, s.pieces)

pieces-ne-nil : (ps : List Bytes) → All IsPiece ps → All (λ p. p ≢ []) ps
pieces-ne-nil [] h = tt
pieces-ne-nil (p ∷ ps) h = ((λ e. omega (arith, h.0.0, ap length e)), pieces-ne-nil ps h.1)

append-ne-nil : (a : Bytes) (b : ℕ) (t : Bytes) → a ++ b ∷ t ≢ []
append-ne-nil [] b t e = cc
append-ne-nil (x ∷ a) b t e = cc

-- With sends to come that take each piece of the request whole, the head and then the body go out,
-- whole.
pub write_request-wrote :
    (c : Client) (t : Target) (body : Bytes) (o : Output)
    → Takes (request_pieces c t body) o.sends
    → (o' : Output) × (write_request c t body o ≡ wrote o')
      × (o'.sent ≡ o.sent ++ (request_head c t body ++ body))
unfolding write_request
write_request-wrote c t body o n =
    let (ps, split, whole, pieces) = request_pieces-Splits c t body in
    let (o', e, f) =
      write_all-wrote (request_head c t body ∷ ps) o
        (unfold request_head in append-ne-nil c.method b' ' _, pieces-ne-nil ps pieces)
        (subst (λ k. Takes k o.sends) split n) in
    (
      o',
      ap (λ k. write_all k o) split ∙ e,
      f ∙ ap (λ k. o.sent ++ (request_head c t body ++ k)) whole,
    )
