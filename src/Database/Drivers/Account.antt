-- ===== src/Database/Drivers/Account.antt =====
-- Connection strings of MySQL as they are meant.
use solusek.Base.{
  false, [], ◌∷◌, ◌++◌, ◌≡◌, ◌≢◌, refl, ap, arith, some, ltb, Bytes, codes, Lacks, find-append,
  find-Lacks, length, take-append, drop_past, append_assoc, All-append,
}
use solusek.Database.Drivers.Mysql.{Login, with_user, with_host, with_database, parse_connection}

-- A user and a password in front of the host, or a user, or neither.
pub data Who : Type 0 where
  nobody : Who
  user : Bytes → Who
  user_with : Bytes → Bytes → Who

abbrev pub who_text : Who → Bytes → Bytes
who_text nobody rest = rest
who_text (user u) rest = u ++ b'@' ∷ rest
who_text (user_with u p) rest = (u ++ b':' ∷ p) ++ b'@' ∷ rest

abbrev pub connection_text : Who → Bytes → Bytes → Bytes
connection_text who host database = codes "mysql://" ++ who_text who (host ++ b'/' ∷ database)

abbrev pub login_of : Who → Bytes → Bytes → Login
login_of nobody host database = record {
  username = [];
  password = [];
  host = host;
  database = database;
}
login_of (user u) host database = record {
  username = u;
  password = [];
  host = host;
  database = database;
}
login_of (user_with u p) host database = record {
  username = u;
  password = p;
  host = host;
  database = database;
}

-- No separator stands in a part that it ends.
abbrev pub IsWho : Who → Type 0
IsWho nobody = Unit
IsWho (user u) = Lacks b'@' u × Lacks b'/' u × Lacks b':' u
IsWho (user_with u p) = Lacks b'@' u × Lacks b'/' u × Lacks b':' u × Lacks b'@' p × Lacks b'/' p

who_text-append :
    (who : Who) (host rest : Bytes) → who_text who (host ++ rest) ≡ who_text who host ++ rest
who_text-append nobody host rest = refl
who_text-append (user u) host rest = simp append_assoc
who_text-append (user_with u p) host rest = simp append_assoc

who_text-Lacks :
    (who : Who) (host : Bytes) → IsWho who → Lacks b'/' host → Lacks b'/' (who_text who host)
who_text-Lacks nobody host h k = k
who_text-Lacks (user u) host h k =
    All-append (λ c. c ≢ b'/') u (b'@' ∷ host) h.1 ((λ e. omega arith), k)
who_text-Lacks (user_with u p) host h k =
    All-append (λ c. c ≢ b'/') (u ++ b':' ∷ p) (b'@' ∷ host)
      (All-append (λ c. c ≢ b'/') u (b':' ∷ p) h.1 ((λ e. omega arith), h.4))
      ((λ e. omega arith), k)

with_host-who :
    (who : Who) (host database : Bytes)
    → IsWho who
    → Lacks b'@' host
    → with_host (who_text who host) database ≡ login_of who host database
with_host-who nobody host database h k = rw (find-Lacks b'@' host k, with_host)
with_host-who (user u) host database h k =
    rw (find-append b'@' u host h.0, with_host, take-append u (b'@' ∷ host), drop_past u b'@' host)
      (rw (find-Lacks b':' u h.2, with_user) refl)
with_host-who (user_with u p) host database h k =
    let clean : Lacks b'@' (u ++ b':' ∷ p) =
      All-append (λ c. c ≢ b'@') u (b':' ∷ p) h.0 ((λ e. omega arith), h.3) in
    rw
      (
        find-append b'@' (u ++ b':' ∷ p) host clean,
        with_host,
        take-append (u ++ b':' ∷ p) (b'@' ∷ host),
        drop_past (u ++ b':' ∷ p) b'@' host,
      )
      (rw (find-append b':' u p h.2, with_user, take-append u (b':' ∷ p), drop_past u b':' p) refl)

-- A connection string of MySQL, written from a user and a password, a user or neither, a host and a
-- database, is taken apart into them, if no part but the database holds a slash, none but the
-- database an at-sign, and the user no colon.
pub parse_connection-text :
    (who : Who) (host database : Bytes)
    → IsWho who
    → Lacks b'@' host
    → Lacks b'/' host
    → parse_connection (connection_text who host database) ≡ some (login_of who host database)
unfolding parse_connection
parse_connection-text who host database h k s =
    let long : ltb (length (connection_text who host database)) 8 ≡ false = ground arith in
    rw long (
      rw (who_text-append who host (b'/' ∷ database)) (
        rw
          (
            find-append b'/' (who_text who host) database (who_text-Lacks who host h s),
            with_database,
            take-append (who_text who host) (b'/' ∷ database),
            drop_past (who_text who host) b'/' database,
          )
          (ap some (with_host-who who host database h k))))
