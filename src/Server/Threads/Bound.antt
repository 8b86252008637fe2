-- ===== src/Server/Threads/Bound.antt =====
-- How many threads there are.
use solusek.Base.{
  ℕ, suc, ◌+◌, ◌-◌, ◌≤◌, ◌<◌, List, [], ◌∷◌, ◌++◌, ◌≡◌, refl, sym, ap, subst, All, ◌∙◌, arith,
  length, length-append, u32_mod,
}
use solusek.Server.Threads.{
  Phase, top, checking, accepting, counting, counted, draining, returned, State, initial,
  remove_node, Step, enter, leave, pass, read_up, write_up, break, create, fail, drained, push,
  remove, read_down, write_down, stop, reading, holders, Apart, alone, step,
}

-- What the phase has counted beyond the threads, and how many threads it may find.
abbrev pub extra : Phase → ℕ
extra top = 0
extra checking = 0
extra accepting = 0
extra (counting n) = 0
extra counted = 1
extra (draining k) = k
extra (returned k) = k

abbrev pub room : Phase → ℕ → ℕ
room top limit = suc limit
room checking limit = suc limit
room accepting limit = limit
room (counting n) limit = limit
room counted limit = limit
room (draining k) limit = suc limit - k
room (returned k) limit = suc limit - k

-- The threads that exist.
abbrev pub threads : State → ℕ
threads s = ((length s.starting + length s.nodes) + s.leaving) + length s.holding

pub record IsCounted (limit : ℕ) (s : State) : Type 0 where
  pub same_limit : s.thread_limit ≡ limit
  pub exact : s.thread_count ≡ (threads s + s.failed) + extra s.phase
  pub fits : threads s + s.failed ≤ room s.phase limit
  -- What was read is still so.
  seen : (n : ℕ) → s.phase ≡ counting n → n ≡ s.thread_count
  held : All (λ v. v ≡ s.thread_count) s.holding
  once : extra s.phase ≤ 1

length-remove_node :
    (id : ℕ) (before behind : List ℕ)
    → suc (length (remove_node id (before ++ id ∷ behind))) ≡ length (before ++ id ∷ behind)
unfolding remove_node
length-remove_node id [] behind = ground arith
length-remove_node id (n ∷ before) behind = ground (arith, length-remove_node id before behind)

-- A phase with what it counts and what room it has.
record At (limit : ℕ) (p : Phase) (e r : ℕ) : Type 0 where
  counts : extra p ≡ e
  leaves : room p limit ≡ r

At-phase : (limit : ℕ) (p q : Phase) → p ≡ q → At limit p (extra q) (room q limit)
At-phase limit p q e = record { counts = ap extra e; leaves = ap (λ t. room t limit) e }

-- A step that moves a thread on.
kept :
    (limit : ℕ) (s t : State)
    → IsCounted limit s
    → t.phase ≡ s.phase
    → t.thread_count ≡ s.thread_count
    → t.thread_limit ≡ s.thread_limit
    → t.failed ≡ s.failed
    → All (λ v. v ≡ t.thread_count) t.holding
    → threads t ≡ threads s
    → IsCounted limit t
kept limit s t h p c l f held same = record {
  same_limit = l ∙ h.same_limit;
  exact = omega (arith, c, h.exact, same, f, ap extra p);
  fits = omega (arith, same, f, h.fits, ap (λ q. room q limit) p);
  seen = λ n e. h.seen n (sym p ∙ e) ∙ sym c;
  held = held;
  once = omega (arith, h.once, ap extra p);
}

room-suc : (p : Phase) (limit : ℕ) → room p limit ≤ suc limit
room-suc top limit = omega arith
room-suc checking limit = omega arith
room-suc accepting limit = omega arith
room-suc (counting n) limit = omega arith
room-suc counted limit = omega arith
room-suc (draining k) limit = omega arith
room-suc (returned k) limit = omega arith

counting_inj : {m n : ℕ} → counting m ≡ counting n → m ≡ n
counting_inj e = cc

none_held : (c : ℕ) (vs : List ℕ) → length vs ≤ 0 → All (λ v. v ≡ c) vs
none_held c [] h = tt
none_held c (v ∷ vs) h = absurd (omega arith)

All-middle :
    {c : ℕ} (before : List ℕ) (v : ℕ) (behind : List ℕ)
    → All (λ v. v ≡ c) (before ++ v ∷ behind)
    → v ≡ c
All-middle [] v behind h = h.0
All-middle (x ∷ before) v behind h = All-middle before v behind h.1

pub Step-IsCounted :
    (limit : ℕ) (s t : State)
    → suc limit < u32_mod
    → holders s ≤ 1
    → IsCounted limit s
    → Step s t
    → IsCounted limit t
Step-IsCounted limit s t small apart h (enter _ p b) =
    let a = At-phase limit s.phase top p in
    record {
      same_limit = h.same_limit;
      exact = omega (arith, h.exact, a.counts);
      fits = omega (arith, h.fits, a.leaves);
      seen = λ n e. absurd (cc);
      held = h.held;
      once = omega arith;
    }
Step-IsCounted limit s t small apart h (leave _ p b) =
    let a = At-phase limit s.phase top p in
    record {
      same_limit = h.same_limit;
      exact = omega (arith, h.exact, a.counts);
      fits = omega (arith, h.fits, a.leaves);
      seen = λ n e. absurd (cc);
      held = h.held;
      once = omega arith;
    }
Step-IsCounted limit s t small apart h (pass _ p b) =
    let a = At-phase limit s.phase checking p in
    record {
      same_limit = h.same_limit;
      exact = omega (arith, h.exact, a.counts);
      fits = ground (arith, h.exact, a.counts, h.same_limit);
      seen = λ n e. absurd (cc);
      held = h.held;
      once = omega arith;
    }
Step-IsCounted limit s t small apart h (read_up _ p) =
    let a = At-phase limit s.phase accepting p in
    record {
      same_limit = h.same_limit;
      exact = omega (arith, h.exact, a.counts);
      fits = omega (arith, h.fits, a.leaves);
      seen = λ n e. sym (counting_inj e);
      held = h.held;
      once = omega arith;
    }
Step-IsCounted limit s t small apart h (write_up _ n p) =
    let a = At-phase limit s.phase (counting n) p in
    record {
      same_limit = h.same_limit;
      exact = omega (arith, h.exact, h.fits, a.counts, a.leaves, h.seen n p);
      fits = omega (arith, h.fits, a.leaves);
      seen = λ n e. absurd (cc);
      held = none_held _ s.holding (omega (arith, apart, ap reading p));
      once = omega arith;
    }
Step-IsCounted limit s t small apart h (break _ p b) =
    let a = At-phase limit s.phase counted p in
    record {
      same_limit = h.same_limit;
      exact = omega (arith, h.exact, a.counts);
      fits = omega (arith, h.fits, a.leaves);
      seen = λ n e. absurd (cc);
      held = h.held;
      once = omega arith;
    }
Step-IsCounted limit s t small apart h (create _ p b) =
    let a = At-phase limit s.phase counted p in
    record {
      same_limit = h.same_limit;
      exact = omega (arith, h.exact, a.counts);
      fits = omega (arith, h.fits, a.leaves);
      seen = λ n e. absurd (cc);
      held = h.held;
      once = omega arith;
    }
Step-IsCounted limit s t small apart h (fail _ p b) =
    let a = At-phase limit s.phase counted p in
    record {
      same_limit = h.same_limit;
      exact = omega (arith, h.exact, a.counts);
      fits = omega (arith, h.fits, a.leaves);
      seen = λ n e. absurd (cc);
      held = h.held;
      once = omega arith;
    }
Step-IsCounted limit s t small apart h (drained _ k p b) =
    let a = At-phase limit s.phase (draining k) p in
    record {
      same_limit = h.same_limit;
      exact = omega (arith, h.exact, a.counts);
      fits = omega (arith, h.fits, a.leaves);
      seen = λ n e. absurd (cc);
      held = h.held;
      once = omega (arith, h.once, a.counts);
    }
Step-IsCounted limit s t small apart h (push _ id before behind e) =
    kept limit s _ h refl refl refl refl h.held (
      omega (
        arith,
        ap length e,
        length-append before (id ∷ behind),
        length-append before behind,
        length-append s.nodes (id ∷ []),
      ))
Step-IsCounted limit s t small apart h (remove _ id before behind e) =
    kept limit s _ h refl refl refl refl h.held (
      omega (
        arith,
        ap length e,
        ap (λ n. length (remove_node id n)) e,
        length-remove_node id before behind,
      ))
Step-IsCounted limit s t small apart h (read_down _ n e) =
    kept limit s _ h refl refl refl refl (refl, h.held) (omega (arith, e))
Step-IsCounted limit s t small apart h (write_down _ v before behind e) =
    let roomy = room-suc s.phase limit in
    let more = ap length e ∙ length-append before (v ∷ behind) in
    let fewer = length-append before behind in
    let same = All-middle before v behind (subst (All (λ v. v ≡ s.thread_count)) e h.held) in
    record {
      same_limit = h.same_limit;
      exact = omega (arith, h.exact, h.fits, h.once, more, fewer, roomy, same);
      fits = omega (arith, h.fits, more, fewer);
      seen = λ n p. absurd (omega (arith, apart, ap reading p, more));
      held = none_held _ (before ++ behind) (omega (arith, apart, more, fewer));
      once = h.once;
    }
Step-IsCounted limit s t small apart h (stop _) = record {
  same_limit = h.same_limit;
  exact = h.exact;
  fits = h.fits;
  seen = h.seen;
  held = h.held;
  once = h.once;
}

pub Apart-holders : (s t : State) → holders s ≤ 1 → Apart s t → holders t ≤ 1
Apart-holders s t h alone = h
Apart-holders s t h (step r st one) = one

pub Apart-IsCounted :
    (limit : ℕ) (s t : State)
    → suc limit < u32_mod
    → holders s ≤ 1
    → IsCounted limit s
    → Apart s t
    → IsCounted limit t
Apart-IsCounted limit s t small one h alone = h
Apart-IsCounted limit s t small one h (step {t = u} r st _) =
    Step-IsCounted limit u t small (Apart-holders s u one r)
      (Apart-IsCounted limit s u small one h r) st

pub initial-IsCounted : (limit : ℕ) → IsCounted limit (initial limit)
initial-IsCounted limit = record {
  same_limit = refl;
  exact = refl;
  fits = omega arith;
  seen = λ n e. absurd (cc);
  held = tt;
  once = omega arith;
}

-- For a limit below 2^32 - 1, where no two changes of `ThreadCount` overlap: at most one thread more
-- than `ThreadLimit` exists, threads that could not be created are counted as if they were there, and
-- `ThreadCount` never falls below the number of both nor exceeds it by more than one.
pub Apart-threads :
    (limit : ℕ) (s : State)
    → suc limit < u32_mod
    → Apart (initial limit) s
    → (threads s + s.failed ≤ suc limit)
      × (threads s + s.failed ≤ s.thread_count)
      × (s.thread_count ≤ suc (threads s + s.failed))
Apart-threads limit s small r =
    let h =
      Apart-IsCounted limit (initial limit) s small (omega arith) (initial-IsCounted limit) r in
    (
      omega (arith, h.fits, room-suc s.phase limit),
      omega (arith, h.exact),
      omega (arith, h.exact, h.once),
    )
