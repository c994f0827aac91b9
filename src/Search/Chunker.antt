-- ===== src/Search/Chunker.antt =====
-- src/search/chunker.ts: `pack`. `tokenize` is the caller's count of tokens.
pub mod Packed
use vault_engine.Base.{
  ℕ, zero, suc, ◌+◌, ◌-◌, ◌*◌, ◌/◌, min, max, Text, Bool, true, false, List, [], ◌∷◌, ◌++◌, length,
  take, drop, leb, ltb, if◌then◌else◌, is_empty,
}

pub record ChunkOptions : Type 0 where
  pub max_tokens : ℕ
  pub overlap_tokens : ℕ

-- `${buffer}\n\n${piece}`
abbrev pub joined : Text → Text → Text
joined buffer piece = buffer ++ 10 ∷ 10 ∷ piece

abbrev pub last_chunk : Text → List Text
last_chunk [] = []
last_chunk (c ∷ s) = (c ∷ s) ∷ []

module _ (tokenize : Text → ℕ) where
  -- The loop of `pack`: what is left, and the buffer.
  unfoldable pub pack_from : ℕ → Text → List Text → List Text
  pack_from max_tokens buffer [] = last_chunk buffer
  pack_from max_tokens buffer ([] ∷ pieces) = pack_from max_tokens buffer pieces
  pack_from max_tokens [] ((c ∷ s) ∷ pieces) = pack_from max_tokens (c ∷ s) pieces
  pack_from max_tokens (b ∷ buffer) ((c ∷ s) ∷ pieces) =
      let kept = pack_from max_tokens (joined (b ∷ buffer) (c ∷ s)) pieces in
      let begun = pack_from max_tokens (c ∷ s) pieces in
      if leb (tokenize (joined (b ∷ buffer) (c ∷ s))) max_tokens then kept else (b ∷ buffer) ∷ begun

  unfoldable pub pack : List Text → ℕ → List Text
  pack chunks max_tokens = pack_from max_tokens [] chunks
