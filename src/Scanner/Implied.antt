-- ===== src/Scanner/Implied.antt =====
-- GetImplied of internal/scanner/scanner.go.
use stackly.Base.{◌≡◌, Bool, false, not, ◌&&◌, ◌||◌, List, [], ◌∷◌, Bytes, arith}
use stackly.Base.Keys.{has, Nodup}
use stackly.Base.Fresh.{
  Fresh, IsFresh, add_all, start, start-IsFresh, add_all-IsFresh, has-out-add_all, has-seen-add_all,
}
use stackly.Scan.{Result}
use stackly.Scanner.Detect.{slugs, each_result, get_implied}

-- Whether a result's technology implies a slug.
abbrev pub implies : Bytes → List Result → Bool
implies k [] = false
implies k (r ∷ rs) = has k r.technology.implies || implies k rs

has-each_result :
    (k : Bytes) (rs : List Result) (s : Fresh)
    → has k (each_result rs s).out ≡ (has k s.out || (implies k rs && not (has k s.seen)))
unfolding each_result
has-each_result k [] s = ground arith
has-each_result k (r ∷ rs) s =
    let next = add_all r.technology.implies s in
    ground (
      arith,
      has-each_result k rs next,
      has-out-add_all k r.technology.implies s,
      has-seen-add_all k r.technology.implies s,
    )

each_result-IsFresh : (rs : List Result) (s : Fresh) → IsFresh s → IsFresh (each_result rs s)
unfolding each_result
each_result-IsFresh [] s h = h
each_result-IsFresh (r ∷ rs) s h =
    each_result-IsFresh rs (add_all r.technology.implies s)
      (add_all-IsFresh r.technology.implies s h)

-- `GetImplied` returns exactly the slugs that a result's technology implies and that are not the
-- slug of a result, each once.
pub get_implied-exact :
    (results : List Result)
    → Nodup (get_implied results)
      × ((k : Bytes)
          → has k (get_implied results) ≡ (implies k results && not (has k (slugs results))))
unfolding get_implied has
get_implied-exact results = (
  (each_result-IsFresh results (start (slugs results)) (start-IsFresh (slugs results))).nodup,
  λ k. ground (arith, has-each_result k results (start (slugs results))),
)
