-- ===== src/Resolver.antt =====
-- src/resolver/candidate-keys.ts: the keys by which a target may name a node.
pub mod Resolve
pub mod Refresh
use vault_engine.Base.{Text, codes, Option}
use vault_engine.Value.{Runtime}
use vault_engine.Store.{Node}

-- `basename` of node:path and LOWER of SQLite, beside the runtime.
pub record Host : Type 0 where
  pub rt : Runtime
  pub basename : Text → Text → Text
  pub lower : Text → Text

pub record CandidateKeys : Type 0 where
  pub file_path : Text
  pub title : Option Text
  pub basename : Text
  pub basename_lower : Text
  pub basename_nfc_lower : Text

abbrev pub base_of : Host → Node → Text
base_of h n = h.basename n.file_path (codes ".md")

-- `s.normalize('NFC').toLowerCase()`
abbrev pub fold_nfc : Host → Text → Text
fold_nfc h s = h.rt.to_lower_case (h.rt.normalize_nfc s)

unfoldable pub candidate_keys_for_node : Host → Node → CandidateKeys
candidate_keys_for_node h n = record {
  file_path = n.file_path;
  title = n.title;
  basename = base_of h n;
  basename_lower = h.rt.to_lower_case (base_of h n);
  basename_nfc_lower = fold_nfc h (base_of h n);
}
