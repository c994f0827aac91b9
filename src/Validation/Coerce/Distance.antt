-- ===== src/Validation/Coerce/Distance.antt =====
-- src/validation/coerce.ts: `levenshtein`, by the rows of its table, and the edit distance by
-- recursion that it computes.
use vault_engine.Base.{
  ℕ, suc, ◌+◌, min, Text, List, [], ◌∷◌, ◌≡◌, refl, ap, ◌∙◌, eqb, length, if◌then◌else◌, reverse,
}
use mathlib.Core.List.{reverse_aux}

-- The cells of row i + 1 from column 1 on: `left` is the cell before, the list is row i from the
-- column before on.
pub cells : ℕ → ℕ → List ℕ → Text → List ℕ
cells c left (diagonal ∷ above ∷ row) (y ∷ ys) =
    let cell = if eqb c y then diagonal else 1 + min (min above left) diagonal in
    cell ∷ cells c cell (above ∷ row) ys
cells c left _ _ = []

-- The rows from the one after `row` on, down to the last.
pub rows : ℕ → List ℕ → Text → Text → List ℕ
unfolding cells
rows i row [] b = row
rows i row (c ∷ a) b = rows (suc i) (suc i ∷ cells c (suc i) row b) a b

-- 0, 1, 2, … from `j` on: the row for the empty prefix
pub first_row : ℕ → Text → List ℕ
first_row j [] = j ∷ []
first_row j (y ∷ ys) = j ∷ first_row (suc j) ys

last_cell : List ℕ → ℕ
last_cell [] = 0
last_cell (x ∷ []) = x
last_cell (x ∷ y ∷ row) = last_cell (y ∷ row)

unfoldable pub levenshtein : Text → Text → ℕ
unfolding rows first_row last_cell
levenshtein a b = last_cell (rows 0 (first_row 0 b) a b)

-- The edit distance, by recursion from the ends: fewest insertions, deletions and replacements.
unfoldable pub edit_distance : Text → Text → ℕ
edit_distance [] ys = length ys
edit_distance (x ∷ xs) [] = suc (length xs)
edit_distance (x ∷ xs) (y ∷ ys) =
    if eqb x y
    then edit_distance xs ys
    else 1 + min (min (edit_distance xs (y ∷ ys)) (edit_distance (x ∷ xs) ys)) (edit_distance xs ys)

-- The row of distances between the reversed prefix `p` and the reversed prefixes of `q` and `ys`.
distances : Text → Text → Text → List ℕ
distances p q [] = edit_distance p q ∷ []
distances p q (y ∷ ys) = edit_distance p q ∷ distances p (y ∷ q) ys

tail_distances : Text → Text → Text → List ℕ
tail_distances p q [] = []
tail_distances p q (y ∷ ys) = distances p (y ∷ q) ys

distances-eq : (p q ys : Text) → distances p q ys ≡ edit_distance p q ∷ tail_distances p q ys
unfolding distances tail_distances
distances-eq p q [] = refl
distances-eq p q (y ∷ ys) = refl

cells-distances :
    (c : ℕ) (p q ys : Text)
    → cells c (edit_distance (c ∷ p) q) (distances p q ys) ys ≡ tail_distances (c ∷ p) q ys
unfolding cells tail_distances distances edit_distance
cells-distances c p q [] = refl
cells-distances c p q (y ∷ ys) =
    rw (distances-eq p (y ∷ q) ys, distances-eq (c ∷ p) (y ∷ q) ys)
      (ap (λ r. edit_distance (c ∷ p) (y ∷ q) ∷ r)
        (rw (distances-eq p (y ∷ q) ys) at (cells-distances c p (y ∷ q) ys)))

first_row-eq-distances : (q ys : Text) → first_row (length q) ys ≡ distances [] q ys
unfolding first_row distances edit_distance
first_row-eq-distances q [] = refl
first_row-eq-distances q (y ∷ ys) = ap (λ r. length q ∷ r) (first_row-eq-distances (y ∷ q) ys)

next_row-eq-distances :
    (c : ℕ) (p b : Text)
    → suc (length p) ∷ cells c (suc (length p)) (distances p [] b) b ≡ distances (c ∷ p) [] b
unfolding edit_distance
next_row-eq-distances c p b =
    rw (distances-eq (c ∷ p) [] b) (ap (λ r. suc (length p) ∷ r) (cells-distances c p [] b))

rows-eq-distances :
    (p a b : Text) → rows (length p) (distances p [] b) a b ≡ distances (reverse_aux a p) [] b
unfolding rows
rows-eq-distances p [] b = refl
rows-eq-distances p (c ∷ a) b =
    ap (λ r. rows (suc (length p)) r a b) (next_row-eq-distances c p b)
    ∙ rows-eq-distances (c ∷ p) a b

last_cell-distances :
    (p q ys : Text) → last_cell (distances p q ys) ≡ edit_distance p (reverse_aux ys q)
unfolding last_cell distances
last_cell-distances p q [] = refl
last_cell-distances p q (y ∷ []) = refl
last_cell-distances p q (y ∷ z ∷ ys) = last_cell-distances p (y ∷ q) (z ∷ ys)

-- The table of `levenshtein` holds the edit distance of its two arguments, read from their ends.
pub levenshtein-eq-edit_distance :
    (a b : Text) → levenshtein a b ≡ edit_distance (reverse a) (reverse b)
unfolding levenshtein
levenshtein-eq-edit_distance a b =
    ap (λ r. last_cell (rows 0 r a b)) (first_row-eq-distances [] b)
    ∙ ap last_cell (rows-eq-distances [] a b)
    ∙ last_cell-distances (reverse_aux a []) [] b
