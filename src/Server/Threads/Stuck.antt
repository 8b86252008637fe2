-- ===== src/Server/Threads/Stuck.antt =====
-- Where changes of `ThreadCount` that overlap lead.
use solusek.Base.{
  ℕ, suc, ◌≤◌, ◌<◌, List, [], ◌∷◌, ◌++◌, ◌≡◌, ◌≢◌, refl, ap, arith, length, length-append, u32_mod,
}
use solusek.Server.Threads.{
  top, checking, accepting, counting, counted, State, initial, remove_node, Step, enter, leave,
  pass, read_up, write_up, break, create, fail, drained, push, remove, read_down, write_down, stop,
  Reach, here, more,
}
use solusek.Server.Threads.Bound.{threads}

-- The accept loop waits for a count that no thread is left to lower.
record IsStuck (s : State) : Type 0 where
  waits : s.phase ≡ checking
  high : s.thread_limit < s.thread_count
  no_starting : s.starting ≡ []
  no_nodes : s.nodes ≡ []
  no_leaving : s.leaving ≡ 0
  no_holding : s.holding ≡ []

not_among : (l before behind : List ℕ) (n : ℕ) → l ≡ [] → l ≢ before ++ n ∷ behind
not_among l before behind n e f =
    omega (arith, ap length e, ap length f, length-append before (n ∷ behind))

Step-IsStuck : (s t : State) → IsStuck s → Step s t → IsStuck t
Step-IsStuck s t h (enter _ p b) = absurd (let w = h.waits in cc)
Step-IsStuck s t h (leave _ p b) = absurd (let w = h.waits in cc)
Step-IsStuck s t h (pass _ p b) = absurd (ground (arith, h.high))
Step-IsStuck s t h (read_up _ p) = absurd (let w = h.waits in cc)
Step-IsStuck s t h (write_up _ n p) = absurd (let w = h.waits in cc)
Step-IsStuck s t h (break _ p b) = absurd (let w = h.waits in cc)
Step-IsStuck s t h (create _ p b) = absurd (let w = h.waits in cc)
Step-IsStuck s t h (fail _ p b) = absurd (let w = h.waits in cc)
Step-IsStuck s t h (drained _ k p b) = absurd (let w = h.waits in cc)
Step-IsStuck s t h (push _ id before behind e) =
    absurd (not_among s.starting before behind id h.no_starting e)
Step-IsStuck s t h (remove _ id before behind e) =
    absurd (not_among s.nodes before behind id h.no_nodes e)
Step-IsStuck s t h (read_down _ n e) = absurd (let w = h.no_leaving in omega arith)
Step-IsStuck s t h (write_down _ v before behind e) =
    absurd (not_among s.holding before behind v h.no_holding e)
Step-IsStuck s t h (stop _) = record {
  waits = h.waits;
  high = h.high;
  no_starting = h.no_starting;
  no_nodes = h.no_nodes;
  no_leaving = h.no_leaving;
  no_holding = h.no_holding;
}

Reach-IsStuck : (s t : State) → IsStuck s → Reach s t → IsStuck t
Reach-IsStuck s t h here = h
Reach-IsStuck s t h (more {t = u} r st) = Step-IsStuck u t (Reach-IsStuck s u h r) st

-- Two connections: the second `ThreadCount++` and the first `ThreadCount--` both read 1, and the
-- decrement is written last, so the second thread lowers 0.
abbrev pub miscounted : ℕ → State
miscounted limit = record (initial limit) {
  phase = checking;
  thread_count = 4294967295;
  next_id = 2;
}

lost_update : (limit : ℕ) → 1 ≤ limit → Reach (initial limit) (miscounted limit)
unfolding remove_node
lost_update limit one =
    let s0 = initial limit in
    let s1 : State = record s0 { phase = checking } in
    let s2 : State = record s0 { phase = accepting } in
    let s3 : State = record s0 { phase = counting 0 } in
    let s4 : State = record s0 { phase = counted; thread_count = 1 } in
    let s5 : State = record s4 { phase = top; next_id = 1; starting = 0 ∷ [] } in
    let s6 : State = record s5 { phase = checking } in
    let s7 : State = record s5 { phase = accepting } in
    let s8 : State = record s5 { phase = counting 1 } in
    let s9 : State = record s8 { starting = []; nodes = 0 ∷ [] } in
    let s10 : State = record s9 { nodes = []; leaving = 1 } in
    let s11 : State = record s10 { leaving = 0; holding = 1 ∷ [] } in
    let s12 : State = record s11 { phase = counted; thread_count = 2 } in
    let s13 : State = record s12 { holding = []; thread_count = 0 } in
    let s14 : State = record s13 { phase = top; next_id = 2; starting = 1 ∷ [] } in
    let s15 : State = record s14 { starting = []; nodes = 1 ∷ [] } in
    let s16 : State = record s15 { nodes = []; leaving = 1 } in
    let s17 : State = record s16 { leaving = 0; holding = 0 ∷ [] } in
    let s18 : State = record s17 { holding = []; thread_count = 4294967295 } in
    let r4 : Reach s0 s4 =
      more
        (more (more (more here (enter s0 refl refl)) (pass s1 refl (ground (arith, one))))
          (read_up s2 refl))
        (write_up s3 0 refl) in
    let r8 : Reach s0 s8 =
      more
        (more (more (more r4 (create s4 refl refl)) (enter s5 refl refl))
          (pass s6 refl (ground (arith, one))))
        (read_up s7 refl) in
    let r11 : Reach s0 s11 =
      more (more (more r8 (push s8 0 [] [] refl)) (remove s9 0 [] [] refl))
        (read_down s10 0 refl) in
    let r14 : Reach s0 s14 =
      more (more (more r11 (write_up s11 1 refl)) (write_down s12 1 [] [] refl))
        (create s13 refl refl) in
    let r18 : Reach s0 s18 =
      more
        (more (more (more r14 (push s14 1 [] [] refl)) (remove s15 1 [] [] refl))
          (read_down s16 0 refl))
        (write_down s17 0 [] [] refl) in
    more r18 (enter s18 refl refl)

-- For a limit of at least 1 and below 2^32 - 1, the accept loop and two threads, whose changes of
-- `ThreadCount` overlap, can get to a state with no thread left and no creation failed, and with a
-- count of 2^32 - 1; from there on the accept loop waits for the count to fall in every state that
-- can be reached, also when `stop` is called, so that `run` never returns.
pub overlap_sticks :
    (limit : ℕ) (t : State)
    → 1 ≤ limit
    → suc limit < u32_mod
    → Reach (miscounted limit) t
    → Reach (initial limit) (miscounted limit)
      × (threads (miscounted limit) ≡ 0)
      × (t.phase ≡ checking)
overlap_sticks limit t one small r =
    let stuck : IsStuck (miscounted limit) = record {
      waits = refl;
      high = omega arith;
      no_starting = refl;
      no_nodes = refl;
      no_leaving = refl;
      no_holding = refl;
    } in
    (lost_update limit one, refl, (Reach-IsStuck (miscounted limit) t stuck r).waits)
