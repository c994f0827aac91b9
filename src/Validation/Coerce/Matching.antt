-- ===== src/Validation/Coerce/Matching.antt =====
-- Which enum values match an input, and which candidates a failure suggests.
use vault_engine.Base.{
  ℕ, zero, suc, ◌≤◌, Text, trim, Bool, true, false, Option, none, some, List, [], ◌∷◌, map, ◌≡◌,
  refl, arith, inl, inr, Bool-cases, ◌==◌, eq_iff, eq_refl, some_of, All, All-filter, filter,
  filter-All, take, length, ap,
}
use vault_engine.Base.Dict.{contains}
use vault_engine.Base.Sort.{All-sort_by}
use vault_engine.Value.{Value, str, Runtime, to_string}
use vault_engine.Validation.Coerce.Result.{CoercionCode, CoercionResult, success, failure}
use vault_engine.Validation.Coerce.Distance.{levenshtein}
use vault_engine.Validation.Coerce.Enums.{
  find_enum, to_enum, altered, closest_matches, ranked, by_distance, is_close, max_input_dist,
  Scored, half_of,
}

abbrev pub is_success : CoercionResult → Bool
is_success (success w c k) = true
is_success (failure f) = false

-- The value equals the trimmed text when both are lowercased.
abbrev pub matches_text : Runtime → Text → Text → Bool
matches_text rt trimmed ev = rt.to_lower_case ev == rt.to_lower_case trimmed

abbrev succeeded : Option CoercionResult → Bool
succeeded none = false
succeeded (some r) = is_success r

find_enum-succeeded :
    (rt : Runtime) (a : Bool) (trimmed : Text) (values : List Text)
    → succeeded (find_enum rt a trimmed values) ≡ some_of (matches_text rt trimmed) values
unfolding find_enum
find_enum-succeeded rt a trimmed [] = refl
find_enum-succeeded rt a trimmed (ev ∷ evs) = elim (Bool-cases (ev == trimmed)) [
  | inl e ↦
      let same : (matches_text rt trimmed ev) ≡ true =
        (eq_iff _ _).1 (ap rt.to_lower_case ((eq_iff ev trimmed).0 e)) in
      rw (e, same)
  | inr e ↦ ground (arith, find_enum-succeeded rt a trimmed evs)
]

-- `toEnum` succeeds exactly when some enum value equals the trimmed text of the input up to case.
pub to_enum-is_success :
    (rt : Runtime) (v : Value) (values : List Text)
    → is_success (to_enum rt v values) ≡ some_of (matches_text rt (trim (to_string rt v))) values
unfolding to_enum
to_enum-is_success rt v values =
    ground (arith, find_enum-succeeded rt (altered rt v) (trim (to_string rt v)) values)

module _ (rt : Runtime) where
  find_enum-stable :
      (a : Bool) (trimmed s : Text) (c : Bool) (k : Option CoercionCode) (values : List Text)
      → find_enum rt a trimmed values ≡ some (success (str s) c k)
      → (rt.to_lower_case s ≡ rt.to_lower_case trimmed)
        × (find_enum rt false s values ≡ some (success (str s) false none))
  unfolding find_enum
  find_enum-stable a trimmed s c k [] h = cc
  find_enum-stable a trimmed s c k (ev ∷ evs) h =
      let lower = rt.to_lower_case in
      ground (
        arith,
        find_enum-stable a trimmed s c k evs,
        eq_iff ev trimmed,
        eq_iff ev s,
        eq_iff (lower ev) (lower trimmed),
        eq_iff (lower ev) (lower s),
      )

  find_enum-is_success :
      (a : Bool) (trimmed : Text) (values : List Text) (r : CoercionResult)
      → find_enum rt a trimmed values ≡ some r
      → is_success r ≡ true
  unfolding find_enum
  find_enum-is_success a trimmed [] r h = cc
  find_enum-is_success a trimmed (ev ∷ evs) r h =
      ground (arith, find_enum-is_success a trimmed evs r)

  to_enum-find_enum :
      (v : Value) (values : List Text) (w : Value) (c : Bool) (k : Option CoercionCode)
      → to_enum rt v values ≡ success w c k
      → find_enum rt (altered rt v) (trim (to_string rt v)) values ≡ some (success w c k)
  unfolding to_enum
  to_enum-find_enum v values w c k h = ground arith

-- An enum value that `toEnum` has chosen is chosen again, and unchanged, unless it has white space
-- around it.
pub to_enum-stable :
    (rt : Runtime) (v : Value) (s : Text) (values : List Text) (c : Bool) (k : Option CoercionCode)
    → to_enum rt v values ≡ success (str s) c k
    → trim s ≡ s
    → to_enum rt (str s) values ≡ success (str s) false none
unfolding to_enum to_string
to_enum-stable rt v s values c k h trimmed = ground (
  arith,
  find_enum-stable rt (altered rt v) (trim (to_string rt v)) s c k values
      (to_enum-find_enum rt v values (str s) c k h),
  eq_iff s (trim s),
)

-- A suggestion: a candidate at most `most` edits from the input, and at most half its length.
abbrev pub IsSuggestion : Runtime → Text → List Text → Text → Type 0
IsSuggestion rt value candidates c =
    let d = levenshtein (rt.to_lower_case value) (rt.to_lower_case c) in
    (contains candidates c ≡ true)
    × (d ≤ max_input_dist (rt.to_lower_case value))
    × (d ≤ half_of (length c))

module _ (rt : Runtime) (value : Text) where
  abbrev pub score : Text → Scored
  score c = (c, levenshtein (rt.to_lower_case value) (rt.to_lower_case c))

  -- A candidate with its edit distance from the input
  abbrev pub Rated : List Text → Scored → Type 0
  Rated candidates (c, d) =
      (contains candidates c ≡ true)
      × (d ≡ levenshtein (rt.to_lower_case value) (rt.to_lower_case c))

  Rated-cons :
      (c : Text) (cs : List Text) (xs : List Scored) → All (Rated cs) xs → All (Rated (c ∷ cs)) xs
  unfolding contains
  Rated-cons c cs [] h = tt
  Rated-cons c cs ((a, d) ∷ xs) h = ((ground arith, h.0.1), Rated-cons c cs xs h.1)

  pub Rated-map : (cs : List Text) → All (Rated cs) (map score cs)
  unfolding contains
  Rated-map [] = tt
  Rated-map (c ∷ cs) = ((rw eq_refl, refl), Rated-cons c cs (map score cs) (Rated-map cs))

  suggestions :
      (cs : List Text) (n : ℕ) (xs : List Scored)
      → All (Rated cs) xs
      → All (λ x. is_close (max_input_dist (rt.to_lower_case value)) x ≡ true) xs
      → All (IsSuggestion rt value cs) (map (λ (x : Scored). x.0) (take n xs))
  suggestions cs zero xs h k = tt
  suggestions cs (suc n) [] h k = tt
  suggestions cs (suc n) ((c, d) ∷ xs) ((known, dist), h) (close, k) =
      ((known, ground arith, ground arith), suggestions cs n xs h k)

  length-map-take : (n : ℕ) (xs : List Scored) → length (map (λ (x : Scored). x.0) (take n xs)) ≤ n
  length-map-take zero xs = omega arith
  length-map-take (suc n) [] = omega arith
  length-map-take (suc n) (x ∷ xs) = omega (arith, length-map-take n xs)

-- `closestMatches` gives at most `most` texts, all of them candidates whose edit distance from the
-- input, both lowercased, is within the two limits.
pub closest_matches-IsSuggestion :
    (rt : Runtime) (value : Text) (candidates : List Text) (most : ℕ)
    → (length (closest_matches rt value candidates most) ≤ most)
      × All (IsSuggestion rt value candidates) (closest_matches rt value candidates most)
unfolding closest_matches ranked
closest_matches-IsSuggestion rt value candidates most =
    let scored = map (score rt value) candidates in
    let near = is_close (max_input_dist (rt.to_lower_case value)) in
    (
      length-map-take rt value most (ranked rt value candidates),
      suggestions rt value candidates most (ranked rt value candidates)
          (All-sort_by by_distance (Rated rt value candidates) (filter near scored)
            (All-filter (Rated rt value candidates) near scored (Rated-map rt value candidates)))
          (All-sort_by by_distance (λ x. near x ≡ true) (filter near scored)
            (filter-All near scored)),
    )
