-- ===== src/Database/Handle/Ownership.antt =====
-- Who deletes a `CDatabaseHandle`: its user by `dispose`, or `CTransaction::cleanup`. Handles stand in a
-- store by their address; `none` is the use of an object that is not there.
use solusek.Base.{
  ℕ, put, put_same, List, [], ◌∷◌, ◌++◌, ◌≡◌, ◌≢◌, refl, ◌∙◌, Option, none, some, Bytes, ◌==◌, All,
  put_other, Option-cases, Bool-cases, inl, inr,
}
use solusek.Database.Handle.{Handle, get_error}

abbrev pub Store : Type 0
Store = ℕ → Option Handle

-- `delete` of a handle, with its resource.
unfoldable pub delete_handle : ℕ → Store → Option Store
delete_handle a s = elim (s a) [ none ↦ none | some h ↦ some (put a none s) ]

-- `dispose`
unfoldable pub dispose_handle : ℕ → Store → Option Store
unfolding delete_handle
dispose_handle a s = delete_handle a s

abbrev with_text : Option Store → Option Bytes → Option (Store × Bytes)
with_text none text = none
with_text (some s) none = none
with_text (some s) (some text) = some (s, text)

abbrev resource_id : Handle → Option Bytes
resource_id h = elim h.rs [ none ↦ none | some r ↦ some r.id ]

-- `disposeAndGetError`
unfoldable pub dispose_and_get_error : ℕ → Store → Option (Store × Bytes)
unfolding dispose_handle get_error
dispose_and_get_error a s = elim (s a) [
  | none ↦ none
  | some h ↦ with_text (dispose_handle a s) (get_error h)
]

-- `disposeAndGetID`, which reads the id of the resource.
unfoldable pub dispose_and_get_id : ℕ → Store → Option (Store × Bytes)
unfolding dispose_handle
dispose_and_get_id a s = elim (s a) [
  | none ↦ none
  | some h ↦ with_text (dispose_handle a s) (resource_id h)
]

-- `cleanup` of the handles that the transaction owns, and so its destructor.
unfoldable pub cleanup_handles : List ℕ → Store → Option Store
unfolding delete_handle
cleanup_handles [] s = some s
cleanup_handles (a ∷ handles) s = elim (delete_handle a s) [
  | none ↦ none
  | some s' ↦ cleanup_handles handles s'
]

-- The addresses of the handles are different, and each is there.
abbrev pub AreOwned : List ℕ → Store → Type 0
AreOwned [] s = Unit
AreOwned (a ∷ handles) s =
    ((h : Handle) × (s a ≡ some h)) × All (λ b. b ≢ a) handles × AreOwned handles s

put-none : (s : Store) (a b : ℕ) → s a ≡ none → put b none s a ≡ none
put-none s a b e = elim (Bool-cases (a == b)) [ inl t ↦ rw t refl | inr t ↦ rw t e ]

-- An object that is gone faults the cleanup, wherever it stands.
cleanup_handles-gone :
    (before after : List ℕ) (a : ℕ) (s : Store)
    → s a ≡ none
    → cleanup_handles (before ++ a ∷ after) s ≡ none
unfolding cleanup_handles
cleanup_handles-gone [] after a s e = rw (e, cleanup_handles) refl
cleanup_handles-gone (b ∷ before) after a s e = elim (Option-cases (s b)) [
  | inl n ↦ rw (n, cleanup_handles) refl
  | inr (h, n) ↦
      rw (n, cleanup_handles)
        (cleanup_handles-gone before after a (put b none s) (put-none s a b e))
]

AreOwned-put :
    (handles : List ℕ) (a : ℕ) (s : Store)
    → All (λ b. b ≢ a) handles
    → AreOwned handles s
    → AreOwned handles (put a none s)
AreOwned-put [] a s h o = tt
AreOwned-put (b ∷ handles) a s h o =
    ((o.0.0, put_other a none s b h.0 ∙ o.0.1), o.1, AreOwned-put handles a s h.1 o.2)

cleanup_handles-AreOwned :
    (handles : List ℕ) (s : Store)
    → AreOwned handles s
    → (s' : Store) × (cleanup_handles handles s ≡ some s')
      × All (λ a. s' a ≡ none) handles
      × ((a : ℕ) → s a ≡ none → s' a ≡ none)
unfolding cleanup_handles
cleanup_handles-AreOwned [] s o = (s, refl, tt, λ a e. e)
cleanup_handles-AreOwned (a ∷ handles) s o =
    let (s', e, gone, keeps) =
      cleanup_handles-AreOwned handles (put a none s) (AreOwned-put handles a s o.1 o.2) in
    (
      s',
      rw (o.0.1, cleanup_handles) e,
      (keeps a (put_same a none s), gone),
      λ b n. keeps b (put-none s b a n),
    )

AreOwned-there :
    (before after : List ℕ) (a : ℕ) (s : Store)
    → AreOwned (before ++ a ∷ after) s
    → (h : Handle) × (s a ≡ some h)
AreOwned-there [] after a s o = o.0
AreOwned-there (b ∷ before) after a s o = AreOwned-there before after a s o.2

-- A transaction whose handles are all there, at different addresses, deletes each of them at its end.
-- If the user has disposed of one of them, which is what `dispose` is for, the end deletes that one a
-- second time.
pub dispose-cleanup :
    (before after : List ℕ) (a : ℕ) (s : Store)
    → AreOwned (before ++ a ∷ after) s
    → ((s' : Store) × (cleanup_handles (before ++ a ∷ after) s ≡ some s')
        × All (λ b. s' b ≡ none) (before ++ a ∷ after))
      × ((s' : Store) × (dispose_handle a s ≡ some s')
          × (cleanup_handles (before ++ a ∷ after) s' ≡ none))
unfolding dispose_handle
dispose-cleanup before after a s o =
    let (s', e, gone, _) = cleanup_handles-AreOwned (before ++ a ∷ after) s o in
    let (h, there) = AreOwned-there before after a s o in
    (
      (s', e, gone),
      (
        put a none s,
        rw (there, delete_handle) refl,
        cleanup_handles-gone before after a (put a none s) (put_same a none s),
      ),
    )
