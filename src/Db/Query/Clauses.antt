-- ===== src/Db/Query/Clauses.antt =====
-- WHERE clauses as lists of conditions.
use Prim.Native.String as Str
use text.Mathlib.TextLemmas.{nil-append, append_assoc}
use shaperail.Prelude.{String, List, [], ◌∷◌, ◌++◌, not, join, is_empty, ◌≡◌, refl}
use shaperail.Db.Filter.Clauses.{lead}

abbrev pub where_clause : List String → String
where_clause [] = ""
where_clause (c ∷ cs) = Str.◌++◌ " WHERE " (join " AND " (c ∷ cs))

join-append :
    (c : String) (cs : List String) (d : String) (ds : List String)
    → join " AND " ((c ∷ cs) ++ (d ∷ ds))
      ≡ Str.◌++◌ (join " AND " (c ∷ cs)) (Str.◌++◌ " AND " (join " AND " (d ∷ ds)))
join-append c [] d ds = refl
join-append c (e ∷ cs) d ds = rw (join-append e cs d ds, append_assoc, append_assoc) refl

-- Conditions added to a clause with WHERE or AND before them are conditions of the clause.
pub where_clause-append :
    (cs : List String) (d : String) (ds : List String)
    → Str.◌++◌ (where_clause cs) (Str.◌++◌ (lead (not (is_empty cs))) (join " AND " (d ∷ ds)))
      ≡ where_clause (cs ++ (d ∷ ds))
where_clause-append [] d ds = nil-append (where_clause (d ∷ ds))
where_clause-append (c ∷ cs) d ds = rw (join-append c cs d ds, append_assoc) refl
