-- ===== src/Resolver/Resolve/Tiers.antt =====
-- Laws of `resolveTarget` (src/resolver/resolve.ts).
use vault_engine.Base.{
  ◌≤◌, Text, true, Option, none, some, List, [], ◌∷◌, filter, length, ◌≡◌, refl, arith, ◌⊎◌, inl,
  inr, All, IsIn, All-IsIn, leb→le,
}
use vault_engine.Base.Sort.{
  sort_by, All-sort_by, All-of_sort_by, sort_by_nil, IsSorted, sort_by-IsSorted,
}
use vault_engine.Store.{Node, Database}
use vault_engine.Resolver.{Host}
use vault_engine.Resolver.Resolve.{
  ResolvedTarget, target_of, shorter, first_target, pick_shortest, one_of, or_else, Tier, by_path,
  by_title, by_basename, by_folded, by_normalized, matches, resolve_target,
}

-- No candidate has a shorter path than n.
abbrev pub IsShortest : Node → List Node → Type 0
IsShortest n ns = All (λ m. length n.file_path ≤ length m.file_path) ns

-- The target is that of a candidate.
abbrev pub IsOf : List Node → ResolvedTarget → Type 0
IsOf ns r = (n : Node) × IsIn n ns × (r ≡ target_of n)

abbrev pub IsShortestOf : List Node → ResolvedTarget → Type 0
IsShortestOf ns r = (n : Node) × IsIn n ns × IsShortest n ns × (r ≡ target_of n)

-- A candidate is found, or there is none.
abbrev Finds : (List Node → ResolvedTarget → Type 0) → List Node → Option ResolvedTarget → Type 0
Finds P ns none = ns ≡ []
Finds P ns (some r) = P ns r

All-le : (n : Node) (ns : List Node) → All (λ m. shorter n m ≡ true) ns → IsShortest n ns
All-le n [] h = tt
All-le n (m ∷ ns) h = (leb→le (length n.file_path) (length m.file_path) h.0, All-le n ns h.1)

first_target-sorted :
    (sorted : List Node) (ns : List Node)
    → IsSorted shorter sorted
    → All (λ n. IsIn n ns) sorted
    → ((P : Node → Type 0) → All P sorted → All P ns)
    → (sorted ≡ [] → ns ≡ [])
    → Finds IsShortestOf ns (first_target sorted)
first_target-sorted [] ns h members back empty = empty refl
first_target-sorted (n ∷ sorted) ns h members back empty = (
  n,
  members.0,
  back (λ m. length n.file_path ≤ length m.file_path) (omega arith, All-le n sorted h.0),
  refl,
)

pick_shortest-Finds : (ns : List Node) → Finds IsShortestOf ns (pick_shortest ns)
unfolding pick_shortest
pick_shortest-Finds ns =
    first_target-sorted (sort_by shorter ns) ns
      (sort_by-IsSorted shorter (λ a b. ground arith) (λ a b c p q. ground arith) ns)
      (All-sort_by shorter (λ n. IsIn n ns) ns (All-IsIn ns ns (λ n i. i)))
      (λ P. All-of_sort_by shorter P ns) (sort_by_nil shorter ns)

one_of-Finds : (ns : List Node) → Finds IsShortestOf ns (one_of ns)
unfolding one_of
one_of-Finds [] = refl
one_of-Finds (n ∷ []) = (n, inl refl, (omega arith, tt), refl)
one_of-Finds (n ∷ m ∷ ns) = pick_shortest-Finds (n ∷ m ∷ ns)

first_target-Finds : (ns : List Node) → Finds IsOf ns (first_target ns)
first_target-Finds [] = refl
first_target-Finds (n ∷ ns) = (n, inl refl, refl)

-- The tiers in their order, and what each promises of its candidates.
abbrev Tiers : Type 1
Tiers = List (Tier × (List Node → ResolvedTarget → Type 0))

abbrev pub all_tiers : Tiers
all_tiers =
    (by_path, IsOf)
    ∷ (by_title, IsShortestOf)
    ∷ (by_basename, IsShortestOf)
    ∷ (by_folded, IsShortestOf)
    ∷ (by_normalized, IsShortestOf)
    ∷ []

module _ (h : Host) (db : Database) (raw : Text) where
  -- The nodes that pass a tier's test.
  abbrev pub candidates : Tier → List Node
  candidates t = filter (matches h raw t) db.nodes

  -- The answer is a candidate of the first tier that has candidates; it is none if no tier has.
  abbrev pub Decides : Tiers → Option ResolvedTarget → Type 0
  Decides [] o = o ≡ none
  Decides ((t, P) ∷ ts) o =
      ((r : ResolvedTarget) × (o ≡ some r) × P (candidates t) r)
      ⊎ ((candidates t ≡ []) × Decides ts o)

  Decides-or_else :
      (t : Tier) (P : List Node → ResolvedTarget → Type 0) (ts : Tiers)
      (found later : Option ResolvedTarget)
      → Finds P (candidates t) found
      → Decides ts later
      → Decides ((t, P) ∷ ts) (or_else found later)
  Decides-or_else t P ts none later e d = inr (e, d)
  Decides-or_else t P ts (some r) later p d = inl (r, refl, p)

  Decides-last :
      (t : Tier) (P : List Node → ResolvedTarget → Type 0) (found : Option ResolvedTarget)
      → Finds P (candidates t) found
      → Decides ((t, P) ∷ []) found
  Decides-last t P none e = inr (e, refl)
  Decides-last t P (some r) p = inl (r, refl, p)

  -- `resolve_target` answers by the first of the five tiers that a node passes: by the path, with such
  -- a node, and by the later ones, with such a node that none has a shorter path than; it answers
  -- nothing exactly where no node passes any tier.
  pub resolve_target-Decides : Decides all_tiers (resolve_target h db raw)
  unfolding resolve_target
  resolve_target-Decides =
      let o5 = one_of (candidates by_normalized) in
      let o4 = or_else (one_of (candidates by_folded)) o5 in
      let o3 = or_else (one_of (candidates by_basename)) o4 in
      let o2 = or_else (one_of (candidates by_title)) o3 in
      let t5 : Tiers = (by_normalized, IsShortestOf) ∷ [] in
      let t4 : Tiers = (by_folded, IsShortestOf) ∷ t5 in
      let t3 : Tiers = (by_basename, IsShortestOf) ∷ t4 in
      let t2 : Tiers = (by_title, IsShortestOf) ∷ t3 in
      let d5 : Decides t5 o5 = Decides-last by_normalized IsShortestOf o5 (one_of-Finds _) in
      let d4 : Decides t4 o4 = Decides-or_else by_folded IsShortestOf t5 _ o5 (one_of-Finds _) d5 in
      let d3 : Decides t3 o3 =
        Decides-or_else by_basename IsShortestOf t4 _ o4 (one_of-Finds _) d4 in
      let d2 : Decides t2 o2 = Decides-or_else by_title IsShortestOf t3 _ o3 (one_of-Finds _) d3 in
      Decides-or_else by_path IsOf t2 _ o2 (first_target-Finds (candidates by_path)) d2
