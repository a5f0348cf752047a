-- ===== src/LogStream/Tail.antt =====
-- The tail buffer keeps the end of what it was given.
use webhook_ui.Common.{◌≤◌, ◌≡◌, ◌⊎◌, false, [], ◌∷◌, ◌++◌, length, All, Bool, true, Bytes}
use webhook_ui.LogStream.{rune_start, TailBuffer}

-- Nothing, or a byte that starts a rune.
abbrev pub starts_rune : Bytes → Bool
starts_rune [] = true
starts_rune (c ∷ s) = rune_start c

-- What a buffer holds after an append: all of the text, or its end behind a cut.
pub record IsTail (old : TailBuffer) (s : Bytes) (new : TailBuffer) : Type 0 where
  pub same_limit : new.limit ≡ old.limit
  -- what is lost is at the front: the bytes beyond the limit, and the rest of a rune
  pub lost : Bytes
  pub skipped : Bytes
  pub split : old.buf ++ s ≡ lost ++ (skipped ++ new.buf)
  pub inside : All (λ c. rune_start c ≡ false) skipped
  pub bounded : (old.limit ≡ 0) ⊎ (length new.buf ≤ old.limit)
  -- nothing is lost where it fits; where it does not, no byte more than that, and the buffer
  -- starts at a rune
  pub exact :
      ((lost ≡ []) × (skipped ≡ []))
      ⊎ ((length (skipped ++ new.buf) ≡ old.limit) × (starts_rune new.buf ≡ true))
