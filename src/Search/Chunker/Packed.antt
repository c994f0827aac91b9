-- ===== src/Search/Chunker/Packed.antt =====
-- Laws of `pack` (src/search/chunker.ts).
use vault_engine.Base.{
  ℕ, ◌≤◌, Text, Bool, true, false, List, [], ◌∷◌, leb, leb→le, if◌then◌else◌, All, ◌≡◌, refl,
}
use vault_engine.Search.Chunker.{joined, last_chunk, pack_from, pack}

module _ (tokenize : Text → ℕ) (max_tokens : ℕ) where
  abbrev pub IsWithin : Text → Type 0
  IsWithin s = tokenize s ≤ max_tokens

  -- An empty buffer counts for nothing.
  abbrev IsBuffer : Text → Type 0
  IsBuffer [] = Unit
  IsBuffer (c ∷ s) = IsWithin (c ∷ s)

  All-last_chunk : (buffer : Text) → IsBuffer buffer → All IsWithin (last_chunk buffer)
  All-last_chunk [] h = tt
  All-last_chunk (c ∷ s) h = (h, tt)

  All-choice :
      (b : Bool) (begun kept : List Text) (buffer : Text)
      → IsWithin buffer
      → (b ≡ true → All IsWithin kept)
      → All IsWithin begun
      → All IsWithin (if b then kept else buffer ∷ begun)
  All-choice true begun kept buffer w k g = k refl
  All-choice false begun kept buffer w k g = (w, g)

  All-pack_from :
      (buffer : Text) (pieces : List Text)
      → IsBuffer buffer
      → All IsWithin pieces
      → All IsWithin (pack_from tokenize max_tokens buffer pieces)
  unfolding pack_from
  All-pack_from buffer [] h w = All-last_chunk buffer h
  All-pack_from buffer ([] ∷ pieces) h w = All-pack_from buffer pieces h w.1
  All-pack_from [] ((c ∷ s) ∷ pieces) h w = All-pack_from (c ∷ s) pieces w.0 w.1
  All-pack_from (b ∷ buffer) ((c ∷ s) ∷ pieces) h w =
      All-choice (leb (tokenize (joined (b ∷ buffer) (c ∷ s))) max_tokens) _ _ (b ∷ buffer) h
        (λ e. All-pack_from (joined (b ∷ buffer) (c ∷ s)) pieces (leb→le _ _ e) w.1)
        (All-pack_from (c ∷ s) pieces w.0 w.1)

  -- Where every piece is within the limit of tokens, every packed chunk is.
  pub All-pack :
      (chunks : List Text) → All IsWithin chunks → All IsWithin (pack tokenize chunks max_tokens)
  unfolding pack
  All-pack chunks w = All-pack_from [] chunks tt w
