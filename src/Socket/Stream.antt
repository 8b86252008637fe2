-- ===== src/Socket/Stream.antt =====
-- Reading and writing as operations on the whole stream of bytes.
use mathlib.Core.Path.{fun_ext}
use solusek.Base.{
  ℕ, zero, suc, ◌≤◌, ◌<◌, List, [], ◌∷◌, ◌++◌, Option, none, some, ◌≡◌, ◌≢◌, refl, sym, ap, ◌∙◌,
  arith, Bytes, take, drop, concat, length, take_all, drop_all, take-append-drop, append_assoc,
  append-nil, All, is_empty, Bool-cases, inl, inr,
}
use solusek.Socket.{
  Input, stream, recv, read_buffer, Output, Written, wrote, threw, send, size_of_int, write_buffer,
  write_all, Takes, output, ◌then_write◌,
}

-- A successful read takes at least one byte and at most `n` from the front of the stream.
pub data Reads (n : ℕ) (i : Input) : Option (Bytes × Input) → Type 0 where
  ended : stream i ≡ [] → Reads n i none
  chunk :
      (c : Bytes) (i' : Input)
      → stream i ≡ c ++ stream i'
      → 0 < length c
      → length c ≤ n
      → Reads n i (some (c, i'))

length-take_le : (n : ℕ) (xs : Bytes) → length (take n xs) ≤ n
length-take_le zero xs = omega arith
length-take_le (suc n) [] = omega arith
length-take_le (suc n) (x ∷ xs) = omega (arith, length-take_le n xs)

recv-Reads :
    (n : ℕ) (p : Bytes) (ss : List Bytes)
    → 0 < n
    → Reads n (record { pending = p; arrivals = ss }) (recv n p ss)
unfolding recv
recv-Reads n [] [] h = ended refl
recv-Reads n [] (s ∷ ss) h = skip (recv-Reads n s ss h)
  where
    skip :
        {r : Option (Bytes × Input)}
        → Reads n (record { pending = s; arrivals = ss }) r
        → Reads n (record { pending = []; arrivals = s ∷ ss }) r
    skip (ended e) = ended e
    skip (chunk c i' e lo hi) = chunk c i' e lo hi
recv-Reads zero (b ∷ bs) ss h = elim h [ ]
recv-Reads (suc n) (b ∷ bs) ss h =
    chunk (b ∷ take n bs) (record { pending = drop n bs; arrivals = ss })
      (ap (λ t. b ∷ t)
        (ap (λ t. t ++ concat ss) (sym (take-append-drop n bs))
          ∙ append_assoc (take n bs) (drop n bs) (concat ss)))
      (omega arith) (omega (arith, length-take_le n bs))

-- `readBuffer` throws exactly at the end of the stream, and otherwise splits a chunk off its front.
pub read_buffer-Reads : (n : ℕ) (i : Input) → 0 < n → Reads n i (read_buffer n i)
unfolding read_buffer
read_buffer-Reads n i h = recv-Reads n i.pending i.arrivals h

-- A read takes all that is pending if there is room for it.
pub read_pending :
    (n : ℕ) (p : Bytes) (ss : List Bytes)
    → p ≢ []
    → length p ≤ n
    → read_buffer n (record { pending = p; arrivals = ss })
      ≡ some (p, record { pending = []; arrivals = ss })
unfolding read_buffer recv
read_pending n [] ss ne h = absurd (ne refl)
read_pending n (b ∷ bs) ss ne h = rw (take_all n (b ∷ bs) h, drop_all n (b ∷ bs) h)

-- The inversion for a read of one byte.
pub record ReadsByte (i : Input) (b : ℕ) (s : Bytes) (r : Option (Bytes × Input)) : Type 0 where
  pub rest : Input
  pub is : r ≡ some (b ∷ [], rest)
  pub left : stream rest ≡ s

pub read_byte-cons :
    (i : Input) (b : ℕ) (s : Bytes) → stream i ≡ b ∷ s → ReadsByte i b s (read_buffer 1 i)
read_byte-cons i b s e = go (read_buffer-Reads 1 i (omega arith))
  where
    go : {r : Option (Bytes × Input)} → Reads 1 i r → ReadsByte i b s r
    go (ended e') = absurd (cc)
    go (chunk [] i' e' lo hi) = absurd (omega arith)
    go (chunk (c ∷ []) i' e' lo hi) = record { rest = i'; is = cc; left = cc }
    go (chunk (c ∷ d ∷ cs) i' e' lo hi) = absurd (omega arith)

pub read_byte-nil : (i : Input) → stream i ≡ [] → read_buffer 1 i ≡ none
read_byte-nil i e = go (read_buffer-Reads 1 i (omega arith))
  where
    go : {r : Option (Bytes × Input)} → Reads 1 i r → r ≡ none
    go (ended e') = refl
    go (chunk [] i' e' lo hi) = absurd (omega arith)
    go (chunk (c ∷ cs) i' e' lo hi) = absurd (cc)

-- What a sequence of writes sends: the front of each of its pieces, up to one of them.
pub data Cuts : List Bytes → Bytes → Type 0 where
  stop : {ps : List Bytes} → Cuts ps []
  cut :
      {p : Bytes} {ps : List Bytes} {out : Bytes} (q unsent : Bytes)
      → p ≡ q ++ unsent
      → Cuts ps out
      → Cuts (p ∷ ps) (q ++ out)

-- A write sends a front of its text.
data Writes (p : Bytes) (o : Output) : Written → Type 0 where
  refuses : (o' : Output) → o'.sent ≡ o.sent → Writes p o (threw o')
  writes :
      (o' : Output) (q unsent : Bytes)
      → p ≡ q ++ unsent
      → o'.sent ≡ o.sent ++ q
      → Writes p o (wrote o')

send-Writes : (ns : List ℕ) (len : ℕ) (p : Bytes) (o : Output) → Writes p o (send ns len p o)
unfolding send
send-Writes [] len p o = refuses o refl
send-Writes (n ∷ ns) len p o = elim (Bool-cases (is_empty (take n (take len p)))) [
  | inl e ↦ rw e (refuses (record o { sends = ns }) refl)
  | inr e ↦ rw e (
      writes (record { sent = o.sent ++ take n (take len p); sends = ns }) (take n (take len p))
        (drop n (take len p) ++ drop len p)
        (sym (take-append-drop len p)
          ∙ ap (λ t. t ++ drop len p) (sym (take-append-drop n (take len p)))
          ∙ append_assoc (take n (take len p)) (drop n (take len p)) (drop len p))
        refl)
]

write_buffer-Writes : (p : Bytes) (o : Output) → Writes p o (write_buffer p o)
unfolding write_buffer
write_buffer-Writes p o = send-Writes o.sends _ p o

-- What a sequence of writes comes to, whatever it throws.
pub record Sends (ps : List Bytes) (o : Output) (w : Written) : Type 0 where
  pub out : Bytes
  pub cuts : Cuts ps out
  pub sent : (output w).sent ≡ o.sent ++ out

pub write_all-Sends : (ps : List Bytes) (o : Output) → Sends ps o (write_all ps o)
unfolding write_all
write_all-Sends [] o = record { out = []; cuts = stop; sent = sym (append-nil o.sent) }
write_all-Sends (p ∷ ps) o = first (write_buffer-Writes p o) (write_all-Sends ps)
  where
    first :
        {w : Written}
        → Writes p o w
        → ((o : Output) → Sends ps o (write_all ps o))
        → Sends (p ∷ ps) o (w then_write write_all ps)
    first (refuses o' e) rec = record { out = []; cuts = stop; sent = e ∙ sym (append-nil o.sent) }
    first (writes o' q unsent e f) rec =
        let r = rec o' in
        record {
          out = q ++ r.out;
          cuts = cut q unsent e r.cuts;
          sent = r.sent ∙ ap (λ t. t ++ r.out) f ∙ append_assoc o.sent q r.out;
        }

size_of_int_small : (n : ℕ) → n < 2147483648 → size_of_int n ≡ n
size_of_int_small n h = ground arith

-- A piece that is taken whole.
send-wrote :
    (n : ℕ) (ns : List ℕ) (b : ℕ) (bs : Bytes) (o : Output)
    → length (b ∷ bs) < 2147483648
    → length (b ∷ bs) ≤ n
    → send (n ∷ ns) (size_of_int (length (b ∷ bs))) (b ∷ bs) o
      ≡ wrote (record { sent = o.sent ++ (b ∷ bs); sends = ns })
unfolding send
send-wrote n ns b bs o h le =
    rw
      (
        size_of_int_small (length (b ∷ bs)) h,
        take_all (length (b ∷ bs)) (b ∷ bs) (omega arith),
        take_all n (b ∷ bs) le,
      )
      refl

-- With none of the pieces empty and sends to come that take them whole, all is written.
pub write_all-wrote :
    (ps : List Bytes) (o : Output)
    → All (λ p. p ≢ []) ps
    → Takes ps o.sends
    → (o' : Output) × (write_all ps o ≡ wrote o') × (o'.sent ≡ o.sent ++ concat ps)
unfolding write_all write_buffer
write_all-wrote ps o h n = go ps o.sends o.sent h n
  where
    go :
        (ps : List Bytes) (ns : List ℕ) (s : Bytes)
        → All (λ p. p ≢ []) ps
        → Takes ps ns
        → (o' : Output) × (write_all ps (record { sent = s; sends = ns }) ≡ wrote o')
          × (o'.sent ≡ s ++ concat ps)
    go [] ns s h n = (record { sent = s; sends = ns }, refl, sym (append-nil s))
    go ([] ∷ ps) ns s h n = absurd (h.0 refl)
    go ((b ∷ bs) ∷ ps) [] s h n = absurd (omega arith)
    go ((b ∷ bs) ∷ ps) (n ∷ ns) s h t =
        let (small, le, later) = t in
        let (o', e, f) = go ps ns (s ++ (b ∷ bs)) h.1 later in
        (
          o',
          ap (λ w. w then_write write_all ps)
                (send-wrote n ns b bs (record { sent = s; sends = n ∷ ns }) small le)
              ∙ e,
          f ∙ append_assoc s (b ∷ bs) (concat ps),
        )

then_write_assoc :
    (w : Written) (f g : Output → Written)
    → ((w then_write f) then_write g) ≡ (w then_write (λ o. f o then_write g))
then_write_assoc (wrote o) f g = refl
then_write_assoc (threw o) f g = refl

write_all-append :
    (ps qs : List Bytes) (o : Output)
    → write_all (ps ++ qs) o ≡ (write_all ps o then_write write_all qs)
unfolding write_all
write_all-append [] qs o = refl
write_all-append (p ∷ ps) qs o =
    ap (λ k. write_buffer p o then_write k) (fun_ext (write_all-append ps qs))
    ∙ sym (then_write_assoc (write_buffer p o) (write_all ps) (write_all qs))

send_empty :
    (ns : List ℕ) (len : ℕ) (o : Output)
    → (o' : Output) × (send ns len [] o ≡ threw o') × (o'.sent ≡ o.sent)
unfolding send
send_empty [] len o = (o, refl, refl)
send_empty (n ∷ ns) len o =
    let e : take n (take len []) ≡ [] = ap (take n) (take_nil len) ∙ take_nil n in
    (record o { sends = ns }, rw e refl, refl)
  where
    take_nil : (n : ℕ) → take {A = ℕ} n [] ≡ []
    take_nil zero = refl
    take_nil (suc n) = refl

-- An empty piece ends the sequence where it stands, also on a healthy connection.
pub write_all-empty :
    (ps qs : List Bytes) (o : Output)
    → All (λ p. p ≢ []) ps
    → Takes ps o.sends
    → (o' : Output) × (write_all (ps ++ [] ∷ qs) o ≡ threw o') × (o'.sent ≡ o.sent ++ concat ps)
unfolding write_all write_buffer
write_all-empty ps qs o h n =
    let (mid, e, f) = write_all-wrote ps o h n in
    let (o', e', f') = send_empty mid.sends _ mid in
    (
      o',
      write_all-append ps ([] ∷ qs) o
          ∙ ap (λ w. w then_write write_all ([] ∷ qs)) e
          ∙ ap (λ w. w then_write write_all qs) e',
      f' ∙ f,
    )
