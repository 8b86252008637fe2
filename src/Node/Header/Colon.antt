-- ===== src/Node/Header/Colon.antt =====
-- What a colon in the request line does to it: `readHeader` takes that line for a header field.
use solusek.Base.{
  [], ◌∷◌, ◌++◌, ◌≡◌, ◌≢◌, refl, sym, ap, ◌∙◌, arith, some, Bytes, Lacks, All-append, find-append,
  find-Lacks, take-append, drop_past, append_assoc,
}
use solusek.Text.{strtolower, lower}
use solusek.Text.Case.{strtolower-Lacks}
use solusek.Node.Header.{parse_line, parse_request_line, split_query}

parse_line-colon : (a b : Bytes) → Lacks b':' a → (parse_line (a ++ b':' ∷ b)).var ≡ strtolower a
unfolding parse_line
parse_line-colon a b h = rw (find-append b':' a b h, parse_line, take-append a (b':' ∷ b))

lower_blank : (m p : Bytes) → strtolower (m ++ b' ' ∷ p) ≡ strtolower m ++ b' ' ∷ strtolower p
unfolding strtolower
lower_blank [] p = refl
lower_blank (x ∷ m) p = ap (λ k. lower x ∷ k) (lower_blank m p)

-- A request for `p:q`, where the method and `p` hold no blank and no colon and `p` no question
-- mark: the method comes out in lower case, the path is cut at the colon and in lower case, the
-- query is lost, and the protocol version is the path once more.
pub colon_in_target :
    (m p q : Bytes)
    → Lacks b' ' m
    → Lacks b':' m
    → Lacks b' ' p
    → Lacks b'?' p
    → Lacks b':' p
    → parse_request_line (parse_line (m ++ (b' ' ∷ (p ++ (b':' ∷ q))))).var
      ≡ some (record {
        method = strtolower m;
        path = strtolower p;
        query_string = [];
        protocol_version = strtolower p;
      })
unfolding parse_request_line split_query
colon_in_target m p q hm cm hp qp cp =
    ap (λ t. parse_request_line (parse_line t).var) (sym (append_assoc m (b' ' ∷ p) (b':' ∷ q)))
    ∙ ap parse_request_line (
        parse_line-colon (m ++ b' ' ∷ p) q
          (All-append (λ c. c ≢ b':') m (b' ' ∷ p) cm ((λ e. omega arith), cp))
        ∙ lower_blank m p)
    ∙ rw
        (
          find-append b' ' (strtolower m) (strtolower p) (strtolower-Lacks b' ' m refl hm),
          parse_request_line,
          drop_past (strtolower m) b' ' (strtolower p),
          take-append (strtolower m) (b' ' ∷ strtolower p),
        )
        (rw (find-Lacks b' ' (strtolower p) (strtolower-Lacks b' ' p refl hp))
          (rw (find-Lacks b'?' (strtolower p) (strtolower-Lacks b'?' p refl qp), split_query)))
