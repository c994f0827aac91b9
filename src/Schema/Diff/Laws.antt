-- ===== src/Schema/Diff/Laws.antt =====
-- Laws of `diffClaims` (src/schema/propagate.ts).
use vault_engine.Base.{
  Text, Bool, true, false, ◌&&◌, ◌||◌, Option, none, some, List, [], ◌∷◌, if◌then◌else◌, ◌==◌,
  eq_iff, ◌≡◌, refl, arith, inl, inr, Bool-cases, ap, subst, ◌∙◌,
}
use vault_engine.Base.Dict
use vault_engine.Base.Dict.{Dict, Unique, Unique-set, get-set, get_of_has-false}
use vault_engine.Value.{Value}
use vault_engine.Schema.Diff.{ClaimShape, by_field, is_added, is_changed, select, diff_claims}

-- The claim on a field that counts: the last one.
unfoldable pub last_claim : Option ClaimShape → List ClaimShape → Text → Option ClaimShape
last_claim found [] f = found
last_claim found (c ∷ cs) f = last_claim (if c.field == f then some c else found) cs f

get-by_field :
    (m : Dict ClaimShape) (cs : List ClaimShape) (f : Text)
    → Dict.get (by_field m cs) f ≡ last_claim (Dict.get m f) cs f
unfolding by_field last_claim
get-by_field m [] f = refl
get-by_field m (c ∷ cs) f =
    get-by_field (Dict.set m c.field c) cs f ∙ ap (λ o. last_claim o cs f) (get-set m c.field f c)

Unique-by_field : (m : Dict ClaimShape) (cs : List ClaimShape) → Unique m → Unique (by_field m cs)
unfolding by_field
Unique-by_field m [] h = h
Unique-by_field m (c ∷ cs) h = Unique-by_field (Dict.set m c.field c) cs (Unique-set m c.field c h)

-- A test of the old claim and a new one, false where there is no new one.
abbrev pub test_at :
    (Option ClaimShape → ClaimShape → Bool) → Option ClaimShape → Option ClaimShape → Bool
test_at p o none = false
test_at p o (some n) = p o n

contains-cons_if :
    (b : Bool) (k f : Text) (rest : List Text)
    → Dict.contains (if b then k ∷ rest else rest) f ≡ ((b && k == f) || Dict.contains rest f)
unfolding Dict.contains
contains-cons_if b k f rest = ground arith

cond_id : (b : Bool) → ((b && true) || false) ≡ b
cond_id b = ground arith

cond_no : (b c : Bool) → ((b && false) || c) ≡ c
cond_no b c = ground arith

module _ (stringify : Value → Text) (p : Option ClaimShape → ClaimShape → Bool)
    (old : Dict ClaimShape) where
  contains-select_gone :
      (new : Dict ClaimShape) (f : Text)
      → Dict.has new f ≡ false
      → Dict.contains (select stringify p old new) f ≡ false
  unfolding select Dict.contains Dict.has Dict.get
  contains-select_gone [] f h = refl
  contains-select_gone ((k, n) ∷ new) f h = ground (arith, contains-select_gone new f)

  -- One step of the selection, from what holds of the rest.
  contains-select_cons :
      (k : Text) (n : ClaimShape) (new : Dict ClaimShape) (f : Text)
      → Dict.has new k ≡ false
      → Dict.contains (select stringify p old new) f ≡ test_at p (Dict.get old f) (Dict.get new f)
      → Dict.contains (select stringify p old ((k, n) ∷ new)) f
        ≡ test_at p (Dict.get old f) (if k == f then some n else Dict.get new f)
  unfolding select
  contains-select_cons k n new f u rest =
      contains-cons_if (p (Dict.get old k) n) k f (select stringify p old new)
      ∙ elim (Bool-cases (k == f)) [
        | inl same ↦
            let eq = (eq_iff k f).0 same in
            let gone : Dict.contains (select stringify p old new) f ≡ false =
              subst (λ x. Dict.contains (select stringify p old new) x ≡ false) eq
                (contains-select_gone new k u) in
            rw (gone, same)
              (ap (λ x. (p (Dict.get old x) n && true) || false) eq
                ∙ cond_id (p (Dict.get old f) n))
        | inr other ↦ rw other (cond_no (p (Dict.get old k) n) _ ∙ rest)
      ]

  contains-select :
      (new : Dict ClaimShape) (f : Text)
      → Unique new
      → Dict.contains (select stringify p old new) f ≡ test_at p (Dict.get old f) (Dict.get new f)
  unfolding select Dict.get Dict.contains
  contains-select [] f u = refl
  contains-select ((k, n) ∷ new) f u =
      contains-select_cons k n new f u.0 (contains-select new f u.1)

module _ (stringify : Value → Text) (old_claims new_claims : List ClaimShape) where
  abbrev old_at : Text → Option ClaimShape
  old_at f = last_claim none old_claims f

  abbrev new_at : Text → Option ClaimShape
  new_at f = last_claim none new_claims f

  -- Whether `diff_claims` lists a field: as added, where the new claims have it and the old ones do not;
  -- as removed, the other way round; as changed, where both have it and the last claims on it differ.
  pub diff_claims-lem :
      (f : Text)
      → (Dict.contains (diff_claims stringify old_claims new_claims).added f
          ≡ test_at (is_added stringify) (old_at f) (new_at f))
        × (Dict.contains (diff_claims stringify old_claims new_claims).removed f
            ≡ test_at (is_added stringify) (new_at f) (old_at f))
        × (Dict.contains (diff_claims stringify old_claims new_claims).changed f
            ≡ test_at (is_changed stringify) (old_at f) (new_at f))
  unfolding diff_claims
  diff_claims-lem f =
      let old = by_field [] old_claims in
      let new = by_field [] new_claims in
      let old_get : Dict.get old f ≡ old_at f =
        get-by_field [] old_claims f ∙ unfold Dict.get in refl in
      let new_get : Dict.get new f ≡ new_at f =
        get-by_field [] new_claims f ∙ unfold Dict.get in refl in
      let old_unique = Unique-by_field [] old_claims tt in
      let new_unique = Unique-by_field [] new_claims tt in
      (
        contains-select stringify (is_added stringify) old new f new_unique
            ∙ rw (old_get, new_get) refl,
        contains-select stringify (is_added stringify) new old f old_unique
            ∙ rw (old_get, new_get) refl,
        contains-select stringify (is_changed stringify) old new f new_unique
            ∙ rw (old_get, new_get) refl,
      )
