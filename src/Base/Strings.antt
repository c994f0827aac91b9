-- ===== src/Base/Strings.antt =====
-- JavaScript strings as lists of UTF-16 code units, with the methods of `String.prototype` that the
-- program calls and that need no Unicode table.
use Prim.Native.Nat.{ℕ}
use Prim.Native.Char.{code}
use Prim.Native.String.{String}
use mathlib.Core.Path.{◌≡◌, refl, ap, ◌∙◌}
use mathlib.Core.Logic.{◌↔◌, inl, inr}
use mathlib.Core.Bool.{Bool, true, false, ◌&&◌, ◌||◌}
use mathlib.Core.List.{List, [], ◌∷◌, reverse}
use native.Mathlib.Omega.{arith}
use vault_engine.Base.Lists.{All}
use vault_engine.Base.Tests.{eqb, leb, if◌then◌else◌, Bool-cases}

abbrev pub Text : Type 0
Text = List ℕ

-- A literal: the code points of an ASCII text are its code units.
unfoldable pub codes : String → Text
codes String.[] = []
codes (String.◌∷◌ c s) = code c ∷ codes s

-- `===` on strings
infix 50 ◌==◌
unfoldable pub ◌==◌ : Text → Text → Bool
[] == [] = true
(x ∷ xs) == (y ∷ ys) = eqb x y && xs == ys
_ == _ = false

pub eq_iff : (s t : Text) → ((s == t) ≡ true) ↔ (s ≡ t)
unfolding ◌==◌
eq_iff [] [] = (λ _. refl, λ _. refl)
eq_iff [] (y ∷ ys) = (λ h. cc, λ h. cc)
eq_iff (x ∷ xs) [] = (λ h. cc, λ h. cc)
eq_iff (x ∷ xs) (y ∷ ys) = ground (arith, eq_iff xs ys)

pub eq_refl : (s : Text) → (s == s) ≡ true
eq_refl s = (eq_iff s s).1 refl

-- `startsWith`, `endsWith`
unfoldable pub starts_with : Text → Text → Bool
starts_with s [] = true
starts_with [] (y ∷ ys) = false
starts_with (x ∷ xs) (y ∷ ys) = eqb x y && starts_with xs ys

unfoldable pub ends_with : Text → Text → Bool
unfolding starts_with
ends_with s suffix = starts_with (reverse s) (reverse suffix)

-- `includes`
unfoldable pub includes : Text → Text → Bool
unfolding starts_with
includes [] t = starts_with [] t
includes (x ∷ xs) t = starts_with (x ∷ xs) t || includes xs t

-- WhiteSpace and LineTerminator of the language's grammar
unfoldable pub is_space : ℕ → Bool
is_space c =
    (leb 9 c && leb c 13)
    || eqb c 32
    || eqb c 160
    || eqb c 0x1680
    || (leb 0x2000 c && leb c 0x200a)
    || eqb c 0x2028
    || eqb c 0x2029
    || eqb c 0x202f
    || eqb c 0x205f
    || eqb c 0x3000
    || eqb c 0xfeff

unfoldable pub trim_start : Text → Text
unfolding is_space
trim_start [] = []
trim_start (c ∷ s) = let rest = trim_start s in if is_space c then rest else c ∷ s

-- one step of `trim_end`, from the end of the text
abbrev keep_or_drop : ℕ → Text → Text
keep_or_drop c [] = if is_space c then [] else c ∷ []
keep_or_drop c (d ∷ s) = c ∷ d ∷ s

unfoldable pub trim_end : Text → Text
unfolding is_space
trim_end [] = []
trim_end (c ∷ s) = keep_or_drop c (trim_end s)

-- `trim`
unfoldable pub trim : Text → Text
unfolding trim_start trim_end
trim s = trim_end (trim_start s)

abbrev HeadNotSpace : Text → Type 0
HeadNotSpace [] = Unit
HeadNotSpace (c ∷ s) = is_space c ≡ false

HeadNotSpace-trim_start : (s : Text) → HeadNotSpace (trim_start s)
unfolding trim_start
HeadNotSpace-trim_start [] = tt
HeadNotSpace-trim_start (c ∷ s) = elim (Bool-cases (is_space c)) [
  | inl e ↦ rw e (HeadNotSpace-trim_start s)
  | inr e ↦ rw e e
]

trim_start_of_HeadNotSpace : (s : Text) → HeadNotSpace s → trim_start s ≡ s
unfolding trim_start
trim_start_of_HeadNotSpace [] h = refl
trim_start_of_HeadNotSpace (c ∷ s) h = rw h

HeadNotSpace-keep_or_drop :
    (c : ℕ) (s : Text) → is_space c ≡ false → HeadNotSpace (keep_or_drop c s)
HeadNotSpace-keep_or_drop c [] h = rw h h
HeadNotSpace-keep_or_drop c (d ∷ s) h = h

HeadNotSpace-trim_end : (s : Text) → HeadNotSpace s → HeadNotSpace (trim_end s)
unfolding trim_end
HeadNotSpace-trim_end [] h = tt
HeadNotSpace-trim_end (c ∷ s) h = HeadNotSpace-keep_or_drop c (trim_end s) h

trim_end-keep_or_drop :
    (c : ℕ) (s : Text) → trim_end s ≡ s → trim_end (keep_or_drop c s) ≡ keep_or_drop c s
unfolding trim_end
trim_end-keep_or_drop c [] h = elim (Bool-cases (is_space c)) [ inl e ↦ rw e | inr e ↦ rw (e, e) ]
trim_end-keep_or_drop c (d ∷ s) h = rw h

trim_end_idem : (s : Text) → trim_end (trim_end s) ≡ trim_end s
unfolding trim_end
trim_end_idem [] = refl
trim_end_idem (c ∷ s) = trim_end-keep_or_drop c (trim_end s) (trim_end_idem s)

pub trim_idem : (s : Text) → trim (trim s) ≡ trim s
unfolding trim
trim_idem s =
    let start = HeadNotSpace-trim_end (trim_start s) (HeadNotSpace-trim_start s) in
    ap trim_end (trim_start_of_HeadNotSpace (trim_end (trim_start s)) start)
    ∙ trim_end_idem (trim_start s)

NoSpace-trim_end : (s : Text) → All (λ c. is_space c ≡ false) s → trim_end s ≡ s
unfolding trim_end
NoSpace-trim_end [] h = refl
NoSpace-trim_end (c ∷ []) h = rw h.0
NoSpace-trim_end (c ∷ d ∷ s) h = rw (NoSpace-trim_end (d ∷ s) h.1)

-- A text with no white space is its own `trim`.
pub trim_of_NoSpace : (s : Text) → All (λ c. is_space c ≡ false) s → trim s ≡ s
unfolding trim trim_start
trim_of_NoSpace [] h = refl
trim_of_NoSpace (c ∷ s) h = rw h.0 (NoSpace-trim_end (c ∷ s) h)
