-- ===== src/Validation/Coerce/Ranking.antt =====
-- The ranking of the candidates in `closestMatches` (src/validation/coerce.ts).
use vault_engine.Base.{
  Text, Bool, List, [], ◌∷◌, map, ◌≡◌, refl, arith, inl, inr, Bool-cases, ◌==◌, eq_iff, eq_refl,
  All, All-filter, filter, length, ap, ◌∙◌, ◌&&◌, ◌||◌, leb,
}
use vault_engine.Base.Dict.{contains}
use vault_engine.Base.Sort.{insert_by, sort_by, All-sort_by, IsSorted, sort_by-IsSorted}
use vault_engine.Value.{Runtime}
use vault_engine.Validation.Coerce.Distance.{levenshtein}
use vault_engine.Validation.Coerce.Enums.{
  ranked, by_distance, is_close, max_input_dist, Scored, half_of,
}
use vault_engine.Validation.Coerce.Matching.{score, Rated, Rated-map}

abbrev pub texts : List Scored → List Text
texts [] = []
texts ((c, d) ∷ xs) = c ∷ texts xs

contains-insert_by :
    (x : Scored) (ys : List Scored) (c : Text)
    → contains (texts (insert_by by_distance x ys)) c ≡ (x.0 == c || contains (texts ys) c)
unfolding insert_by contains
contains-insert_by x [] c = refl
contains-insert_by x (y ∷ ys) c = ground (arith, contains-insert_by x ys c)

contains-sort_by :
    (xs : List Scored) (c : Text)
    → contains (texts (sort_by by_distance xs)) c ≡ contains (texts xs) c
unfolding sort_by contains
contains-sort_by [] c = refl
contains-sort_by (x ∷ xs) c =
    contains-insert_by x (sort_by by_distance xs) c
    ∙ ap (λ b. x.0 == c || b) (contains-sort_by xs c)

-- The candidate is within the two limits.
abbrev pub is_near : Runtime → Text → Text → Bool
is_near rt value c =
    let d = levenshtein (rt.to_lower_case value) (rt.to_lower_case c) in
    leb d (max_input_dist (rt.to_lower_case value)) && leb d (half_of (length c))

contains-filter :
    (rt : Runtime) (value : Text) (cs : List Text) (c : Text)
    → contains
        (texts
          (filter (is_close (max_input_dist (rt.to_lower_case value))) (map (score rt value) cs)))
        c
      ≡ (contains cs c && is_near rt value c)
unfolding contains
contains-filter rt value [] c = refl
contains-filter rt value (b ∷ cs) c = elim (Bool-cases (b == c)) [
  | inl e ↦
      let same : b ≡ c = (eq_iff b c).0 e in
      rw (same, eq_refl c) (ground (arith, eq_refl c, contains-filter rt value cs c))
  | inr e ↦ ground (arith, contains-filter rt value cs c)
]

-- The ranking holds exactly the candidates that are within the two limits, each with its edit distance
-- from the input (both lowercased), and no candidate stands before a nearer one.
pub ranked-IsSorted :
    (rt : Runtime) (value : Text) (candidates : List Text)
    → IsSorted by_distance (ranked rt value candidates)
      × All (Rated rt value candidates) (ranked rt value candidates)
      × ((c : Text)
          → contains (texts (ranked rt value candidates)) c
            ≡ (contains candidates c && is_near rt value c))
unfolding ranked
ranked-IsSorted rt value candidates =
    let scored = map (score rt value) candidates in
    let near = is_close (max_input_dist (rt.to_lower_case value)) in
    (
      sort_by-IsSorted by_distance (λ x y. ground arith) (λ x y z p q. ground arith) _,
      All-sort_by by_distance (Rated rt value candidates) (filter near scored)
          (All-filter (Rated rt value candidates) near scored (Rated-map rt value candidates)),
      λ c. contains-sort_by (filter near scored) c ∙ contains-filter rt value candidates c,
    )
