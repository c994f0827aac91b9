-- ===== src/Examples/Engine.antt =====
-- The theorems on the resolver, the synchronisation, the schemas and the hints at concrete values.
use vault_engine.Base.{
  ◌||◌, Text, codes, false, none, some, List, [], ◌∷◌, ◌==◌, ◌≡◌, refl, if◌then◌else◌,
}
use vault_engine.Base.Dict
use vault_engine.Value.{Value, num, str, obj, member, end}
use vault_engine.Store.{Database}
use vault_engine.Resolver.{Host}
use vault_engine.Resolver.Resolve.{resolve_target}
use vault_engine.Resolver.Resolve.Tiers.{Decides, all_tiers, resolve_target-Decides}
use vault_engine.Sync.Mutex.{
  PendingEvent, change, Mutex, enqueue, Action, enqueues, awaits_idle, runs, resumes, steps,
}
use vault_engine.Sync.Mutex
use vault_engine.Sync.Mutex.Laws.{IsCoherent, steps-IsCoherent, IsKept, enqueue-IsKept}
use vault_engine.Sync.WriteLock.{Locks, is_locked, acquire, with_lock, mark_recent_write}
use vault_engine.Sync.WriteLock
use vault_engine.Sync.WriteLock.Laws.{with_lock-lem}
use vault_engine.Schema.Diff.{ClaimShape, RequiredClaim, diff_claims, is_added, is_changed}
use vault_engine.Schema.Diff.Laws.{last_claim, test_at, diff_claims-lem}
use vault_engine.GlobalFields.UiHints.{validate_ui_hints}
use vault_engine.GlobalFields.UiHints.Valid.{WhenValid, IsSane, validate_ui_hints-IsSane}
use vault_engine.Examples.{ascii, note, low, high, task, page, node_row, empty_store}

-- `basename` gives the path itself.
abbrev pub host : Host
host = record { rt = ascii; basename = λ path extension. path; lower = ascii.to_lower_case }

abbrev table : Database
table = record empty_store { nodes = node_row task note none ∷ node_row page low (some high) ∷ [] }

resolve_target-Decides_example : Decides host table high all_tiers (resolve_target host table high)
resolve_target-Decides_example = resolve_target-Decides host table high

abbrev event : PendingEvent
event = record { event_type = change; path = note }

abbrev turns : List Action
turns = runs ∷ awaits_idle 1 ∷ resumes false ∷ resumes false ∷ []

steps-IsCoherent_example : IsCoherent (steps (enqueues event ∷ turns) Mutex.fresh)
steps-IsCoherent_example = steps-IsCoherent (enqueues event ∷ turns) Mutex.fresh refl

enqueue-IsKept_example : IsKept event (steps turns (enqueue event Mutex.fresh))
enqueue-IsKept_example = enqueue-IsKept event turns Mutex.fresh refl (tt, (tt, (refl, (refl, tt))))

with_lock-lem_example :
    (is_locked (acquire WriteLock.fresh note) note
      ≡ (note == note || is_locked WriteLock.fresh note))
    × ((acquire WriteLock.fresh note).recent_writes ≡ [])
    × (is_locked (with_lock note (λ m. (mark_recent_write note m, high)) WriteLock.fresh).0 note ≡ (
        if note == note
        then Dict.has (mark_recent_write note (acquire WriteLock.fresh note)).recent_writes note
        else is_locked (mark_recent_write note (acquire WriteLock.fresh note)) note))
    × ((with_lock note (λ m. (mark_recent_write note m, high)) WriteLock.fresh).1 ≡ high)
with_lock-lem_example =
    with_lock-lem note (λ m. (mark_recent_write note m, high)) WriteLock.fresh note

abbrev shape : Text → ClaimShape
shape f = record {
  field = f;
  sort_order = none;
  label = none;
  description = none;
  required = RequiredClaim.inherited;
  default_value = str high;
  enum_values_override = str high;
}

diff_claims-lem_example :
    (Dict.contains (diff_claims ascii.stringify (shape low ∷ []) (shape high ∷ [])).added high
      ≡ test_at
          (is_added ascii.stringify)
          (last_claim none (shape low ∷ []) high)
          (last_claim none (shape high ∷ []) high))
    × (Dict.contains (diff_claims ascii.stringify (shape low ∷ []) (shape high ∷ [])).removed high
        ≡ test_at
            (is_added ascii.stringify)
            (last_claim none (shape high ∷ []) high)
            (last_claim none (shape low ∷ []) high))
    × (Dict.contains (diff_claims ascii.stringify (shape low ∷ []) (shape high ∷ [])).changed high
        ≡ test_at
            (is_changed ascii.stringify)
            (last_claim none (shape low ∷ []) high)
            (last_claim none (shape high ∷ []) high))
diff_claims-lem_example = diff_claims-lem ascii.stringify (shape low ∷ []) (shape high ∷ []) high

-- { label: "high", order: 42 }
abbrev hints : Value
unfolding codes
hints =
    obj (member (codes "label") (str high) (member (codes "order") (num 0x4045000000000000) end))

validate_ui_hints-IsSane_example : WhenValid IsSane (validate_ui_hints hints)
validate_ui_hints-IsSane_example = validate_ui_hints-IsSane hints
