-- ===== src/Database/Transaction/Statements.antt =====
-- The statements against their intended text.
use solusek.Base.{
  ℕ, List, [], ◌∷◌, ◌++◌, ◌≡◌, ◌≢◌, refl, sym, ◌∙◌, Bytes, codes, All, append_assoc, append-nil,
}
use solusek.Database.Transaction.{
  Driver, Vars, insert_loop, insert_sql, pairs_loop, update_sql, names_loop, select_one_sql,
  select_sql,
}

-- Each text with the separator before it.
abbrev pub tail_of : Bytes → List Bytes → Bytes
tail_of sep [] = []
tail_of sep (x ∷ xs) = sep ++ (x ++ tail_of sep xs)

-- Texts with a separator between them.
abbrev pub join : Bytes → List Bytes → Bytes
join sep [] = []
join sep (x ∷ xs) = x ++ tail_of sep xs

abbrev pub quoted : Bytes → Bytes
quoted v = b'\'' ∷ (v ++ b'\'' ∷ [])

abbrev pub columns : Vars → List Bytes
columns [] = []
columns ((k, v) ∷ vars) = k ∷ columns vars

abbrev pub values : Driver → Vars → List Bytes
values d [] = []
values d ((k, v) ∷ vars) = quoted (d.esc v) ∷ values d vars

-- `name='value'` for each entry.
abbrev pub conditions : (Bytes → Bytes) → Vars → List Bytes
conditions text [] = []
conditions text ((k, v) ∷ vars) = (k ++ b'=' ∷ quoted (text v)) ∷ conditions text vars

-- No name is empty.
abbrev pub IsNamed : List Bytes → Type 0
IsNamed = All (λ n. n ≢ [])

names_loop-tail :
    (c : ℕ) (acc : Bytes) (names : List Bytes)
    → names_loop names (c ∷ acc) ≡ (c ∷ acc) ++ tail_of (codes ",") names
unfolding names_loop
names_loop-tail c acc [] = sym (append-nil (c ∷ acc))
names_loop-tail c acc (n ∷ names) =
    names_loop-tail c ((acc ++ codes ",") ++ n) names ∙ simp append_assoc

names_loop-join :
    (names : List Bytes) → IsNamed names → names_loop names [] ≡ join (codes ",") names
unfolding names_loop
names_loop-join [] h = refl
names_loop-join ([] ∷ names) h = absurd (h.0 refl)
names_loop-join ((c ∷ n) ∷ names) h = names_loop-tail c n names

pairs_loop-tail :
    (text : Bytes → Bytes) (sep : Bytes) (c : ℕ) (acc : Bytes) (vars : Vars)
    → pairs_loop text sep vars (c ∷ acc) ≡ (c ∷ acc) ++ tail_of sep (conditions text vars)
unfolding pairs_loop
pairs_loop-tail text sep c acc [] = sym (append-nil (c ∷ acc))
pairs_loop-tail text sep c acc ((k, v) ∷ vars) =
    pairs_loop-tail text sep c _ vars ∙ simp append_assoc

pairs_loop-join :
    (text : Bytes → Bytes) (sep : Bytes) (vars : Vars)
    → pairs_loop text sep vars [] ≡ join sep (conditions text vars)
unfolding pairs_loop
pairs_loop-join text sep [] = refl
pairs_loop-join text sep (([], v) ∷ vars) = pairs_loop-tail text sep b'=' _ vars ∙ simp append_assoc
pairs_loop-join text sep ((c ∷ k, v) ∷ vars) = pairs_loop-tail text sep c _ vars ∙ simp append_assoc

insert_loop-tail :
    (d : Driver) (c : ℕ) (acc : Bytes) (q : ℕ) (vals : Bytes) (vars : Vars)
    → insert_loop d vars (c ∷ acc) (q ∷ vals) ≡ (
      (c ∷ acc) ++ tail_of (codes ",") (columns vars),
      (q ∷ vals) ++ tail_of (codes ",") (values d vars),
    )
unfolding insert_loop
insert_loop-tail d c acc q vals [] = rw (append-nil acc, append-nil vals) refl
insert_loop-tail d c acc q vals ((k, v) ∷ vars) =
    insert_loop-tail d c _ q _ vars ∙ simp append_assoc

insert_loop-join :
    (d : Driver) (vars : Vars)
    → IsNamed (columns vars)
    → insert_loop d vars [] [] ≡ (join (codes ",") (columns vars), join (codes ",") (values d vars))
unfolding insert_loop
insert_loop-join d [] h = refl
insert_loop-join d (([], v) ∷ vars) h = absurd (h.0 refl)
insert_loop-join d ((c ∷ k, v) ∷ vars) h = insert_loop-tail d c _ b'\'' _ vars ∙ simp append_assoc

-- If no column name is empty, `insert` names the columns in order, with a comma between them,
-- and in the same order their values, each escaped and in quotes.
pub insert_sql-join :
    (d : Driver) (table : Bytes) (vars : Vars)
    → IsNamed (columns vars)
    → insert_sql d table vars
      ≡ codes "INSERT INTO "
        ++ (table
            ++ (codes " ("
                ++ (join (codes ",") (columns vars)
                    ++ (codes ") VALUES (" ++ (join (codes ",") (values d vars) ++ codes ")")))))
unfolding insert_sql
insert_sql-join d table vars h = rw (insert_loop-join d vars h) (simp append_assoc)

-- `update` sets every variable to its escaped value, and its condition is the conjunction of an
-- equation for each entry of `find`, whose values it leaves as they are.
pub update_sql-join :
    (d : Driver) (table : Bytes) (find vars : Vars)
    → update_sql d table find vars
      ≡ codes "UPDATE "
        ++ (table
            ++ (codes " SET "
                ++ (join (codes ",") (conditions d.esc vars)
                    ++ (codes " WHERE " ++ join (codes " AND ") (conditions (λ v. v) find)))))
unfolding update_sql
update_sql-join d table find vars =
    rw (pairs_loop-join (λ v. v) (codes " AND ") find, pairs_loop-join d.esc (codes ",") vars)
      (simp append_assoc)

-- `selectOne` sends the text that `select` sends with the limit 1.
pub select_one_sql-select_sql :
    (d : Driver) (table : Bytes) (find : List Bytes) (vars : Vars) (sort : Bytes)
    → select_one_sql d table find vars sort ≡ select_sql d table find vars sort (codes "1")
unfolding select_one_sql select_sql
select_one_sql-select_sql d table find vars sort = simp append_assoc

-- A value of `find` is not kept apart from the text around it: one entry whose value holds a quote
-- gives the statement of two entries.
pub update_sql_mixed :
    (d : Driver) (table k v k' v' : Bytes) (vars : Vars)
    → update_sql d table ((k, v ++ (codes "' AND " ++ (k' ++ (codes "='" ++ v')))) ∷ []) vars
      ≡ update_sql d table ((k, v) ∷ (k', v') ∷ []) vars
update_sql_mixed d table k v k' v' vars =
    update_sql-join d table _ vars ∙ (simp append_assoc) ∙ sym (update_sql-join d table _ vars)
