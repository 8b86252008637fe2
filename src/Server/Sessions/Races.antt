-- ===== src/Server/Sessions/Races.antt =====
-- Sessions that threads start at the same time. `Incremental` and `Sessions` are shared, and the code takes no
-- lock for them: reading the counter, counting and storing the session are steps of their own.
use solusek.Base.{
  ℕ, suc, put, put_same, put_other, List, [], ◌∷◌, ◌++◌, ◌≡◌, ◌≢◌, refl, sym, ap, ◌∙◌, append_assoc,
  arith, leb, if◌then◌else◌, str_eq, str_eq_refl, some, none, Bool-cases, inl, inr,
}
use solusek.Session.{Session, new_session}
use solusek.Server.{find_session}

-- Where a thread stands in `startSession`.
pub data StartPlace : Type 0 where
  idle : StartPlace
  -- Behind `ID = buf`, with the counter that `Incremental++` has yet to store.
  named : Session → StartPlace
  -- Behind `Incremental++`.
  counted : Session → StartPlace

pub record Starting : Type 0 where
  pub incremental : ℕ
  pub places : ℕ → StartPlace
  pub sessions : List Session

-- `if(Incremental >= 4294967295) Incremental = 0;`
abbrev pub reset_counter : ℕ → ℕ
reset_counter i = if leb 4294967295 i then 0 else i

pub data StartStep : Starting → Starting → Type 0 where
  name :
      (s : Starting) (k now : ℕ)
      → s.places k ≡ idle
      → StartStep s (record s {
        incremental = reset_counter s.incremental;
        places = put k (named (new_session now s.incremental).0) s.places;
      })
  count :
      (s : Starting) (k : ℕ) (ses : Session)
      → s.places k ≡ named ses
      → StartStep s
          (record s { incremental = suc s.incremental; places = put k (counted ses) s.places })
  push :
      (s : Starting) (k : ℕ) (ses : Session)
      → s.places k ≡ counted ses
      → StartStep s (record s { sessions = s.sessions ++ ses ∷ []; places = put k idle s.places })

pub data StartReach (s : Starting) : Starting → Type 0 where
  here : StartReach s s
  next : {t u : Starting} → StartReach s t → StartStep t u → StartReach s u

-- One thread's three steps behind `name`.
finish :
    (s t : Starting) (k : ℕ) (ses : Session)
    → StartReach s t
    → t.places k ≡ named ses
    → (u : Starting) × StartReach s u
      × (u.sessions ≡ t.sessions ++ ses ∷ [])
      × ((j : ℕ) → j ≢ k → u.places j ≡ t.places j)
finish s t k ses r at =
    let t1 : Starting = record t {
      incremental = suc t.incremental;
      places = put k (counted ses) t.places;
    } in
    let t2 : Starting = record t1 {
      sessions = t1.sessions ++ ses ∷ [];
      places = put k idle t1.places;
    } in
    (
      t2,
      next (next r (count t k ses at)) (push t1 k ses (put_same k (counted ses) t.places)),
      refl,
      λ j ne. put_other k idle t1.places j ne ∙ put_other k (counted ses) t.places j ne,
    )

new_session-reset : (now i : ℕ) → (new_session now (reset_counter i)).0 ≡ (new_session now i).0
unfolding new_session
new_session-reset now i = elim (Bool-cases (leb 4294967295 i)) [
  | inl e ↦ rw e refl
  | inr e ↦ rw (e, e) refl
]

-- An id that no older session has is found behind them.
find_session-behind :
    (older : List Session) (ses : Session) (rest : List Session)
    → find_session older ses.id ≡ none
    → find_session (older ++ ses ∷ rest) ses.id ≡ some ses
unfolding find_session
find_session-behind [] ses rest h = rw (str_eq_refl ses.id) refl
find_session-behind (o ∷ older) ses rest h = elim (Bool-cases (str_eq o.id ses.id)) [
  | inl e ↦ absurd (ground arith)
  | inr e ↦ rw e (find_session-behind older ses rest (ground arith))
]

-- Two threads that start a session in the same second can read the counter before either counts: two
-- sessions with the same id are then stored, and if no session had that id before, looking it up as
-- `getSession` does gives the first of them.
pub same_id_twice :
    (s : Starting) (j k now : ℕ)
    → j ≢ k
    → s.places j ≡ idle
    → s.places k ≡ idle
    → find_session s.sessions (new_session now s.incremental).0.id ≡ none
    → let ses = (new_session now s.incremental).0 in
      (t : Starting) × StartReach s t
      × (t.sessions ≡ s.sessions ++ ses ∷ ses ∷ [])
      × (find_session t.sessions ses.id ≡ some ses)
same_id_twice s j k now ne at_j at_k unused =
    let ses = (new_session now s.incremental).0 in
    let i = reset_counter s.incremental in
    let ses' = (new_session now i).0 in
    let s1 : Starting = record s { incremental = i; places = put j (named ses) s.places } in
    let s2 : Starting = record s1 {
      incremental = reset_counter i;
      places = put k (named ses') s1.places;
    } in
    let r2 =
      next (next here (name s j now at_j))
        (name s1 k now (put_other j (named ses) s.places k (λ e. ne (sym e)) ∙ at_k)) in
    let (t, r3, stored, others) =
      finish s s2 j ses r2
        (put_other k (named ses') s1.places j ne ∙ put_same j (named ses) s.places) in
    let (u, r4, stored', _) =
      finish s t k ses' r3 (others k (λ e. ne (sym e)) ∙ put_same k (named ses') s1.places) in
    let both =
      stored'
      ∙ ap (λ ss. ss ++ ses' ∷ []) stored
      ∙ append_assoc s.sessions (ses ∷ []) (ses' ∷ [])
      ∙ ap (λ x. s.sessions ++ ses ∷ x ∷ []) (new_session-reset now s.incremental) in
    (
      u,
      r4,
      both,
      ap (λ ss. find_session ss ses.id) both ∙ find_session-behind s.sessions ses (ses ∷ []) unused,
    )
