-- ===== src/Resolver/Resolve.antt =====
-- src/resolver/resolve.ts: the five tiers of `resolveTarget`.
pub mod Tiers
use vault_engine.Base.{
  ◌-◌, Text, codes, Bool, false, Option, none, some, List, [], ◌∷◌, filter, length, take, leb,
  ends_with, if◌then◌else◌, ◌==◌,
}
use vault_engine.Base.Sort.{sort_by}
use vault_engine.Store.{Node, Database}
use vault_engine.Resolver.{Host, base_of, fold_nfc}

pub record ResolvedTarget : Type 0 where
  pub id : Text
  pub title : Option Text

abbrev pub target_of : Node → ResolvedTarget
target_of n = record { id = n.id; title = n.title }

abbrev pub shorter : Node → Node → Bool
shorter a b = leb (length a.file_path) (length b.file_path)

abbrev pub first_target : List Node → Option ResolvedTarget
first_target [] = none
first_target (n ∷ ns) = some (target_of n)

unfoldable pub pick_shortest : List Node → Option ResolvedTarget
pick_shortest candidates = first_target (sort_by shorter candidates)

-- One tier: the only candidate, or the one with the shortest path.
unfoldable pub one_of : List Node → Option ResolvedTarget
one_of [] = none
one_of (n ∷ []) = some (target_of n)
one_of (n ∷ m ∷ ns) = pick_shortest (n ∷ m ∷ ns)

abbrev pub or_else : Option ResolvedTarget → Option ResolvedTarget → Option ResolvedTarget
or_else none r = r
or_else (some t) r = some t

-- A title that is NULL equals nothing.
abbrev pub has_title : Text → Node → Bool
has_title raw n = elim n.title [ none ↦ false | some t ↦ t == raw ]

-- `rawTarget` with no `.md` behind it
unfoldable pub strip_md : Text → Text
strip_md raw = if ends_with raw (codes ".md") then take (length raw - 3) raw else raw

pub data Tier : Type 0 where
  by_path by_title by_basename by_folded by_normalized : Tier

-- The tests of the tiers, in their order.
unfoldable pub matches : Host → Text → Tier → Node → Bool
matches h raw by_path n = n.file_path == raw
matches h raw by_title n = has_title raw n
matches h raw by_basename n = base_of h n == strip_md raw
matches h raw by_folded n = h.rt.to_lower_case (base_of h n) == h.rt.to_lower_case (strip_md raw)
matches h raw by_normalized n = fold_nfc h (base_of h n) == fold_nfc h (strip_md raw)

unfoldable pub resolve_target : Host → Database → Text → Option ResolvedTarget
resolve_target h db raw = or_else (first_target (filter (matches h raw by_path) db.nodes)) (
    or_else (one_of (filter (matches h raw by_title) db.nodes)) (
      or_else (one_of (filter (matches h raw by_basename) db.nodes)) (
        or_else (one_of (filter (matches h raw by_folded) db.nodes))
          (one_of (filter (matches h raw by_normalized) db.nodes)))))
