-- ===== src/TestRun/Rolled.antt =====
-- What the two loops of WriteChunk in internal/handlers/testrun.go leave.
use webhook_ui.Common.{
  ℕ, ◌+◌, ◌-◌, ◌≤◌, ◌<◌, ◌≡◌, ◌⊎◌, inl, inr, refl, ap, Bool, true, false, ◌&&◌, ◌||◌, List, [], ◌∷◌,
  ◌++◌, append_assoc, length, length-append, ltb, Bytes, arith, Bool-cases,
}
use webhook_ui.Store.{Stream}
use webhook_ui.TestRun.{Chunk, TestRun, roll_bytes, roll_count, write_chunk, max_test_run_chunks}

unfoldable pub write_all : List (Stream × Bytes) → TestRun → TestRun
write_all [] r = r
write_all ((stream, chunk) ∷ ws) r = write_all ws (write_chunk stream chunk r)

-- The output, numbered from n + 1 on.
unfoldable pub numbered : ℕ → List (Stream × Bytes) → List Chunk
numbered n [] = []
numbered n ((stream, chunk) ∷ ws) =
    record { seq = n + 1; stream = stream; text = chunk } ∷ numbered (n + 1) ws

abbrev pub text_bytes : List Chunk → ℕ
text_bytes [] = 0
text_bytes (c ∷ cs) = length c.text + text_bytes cs

pub text_bytes-append : (cs ds : List Chunk) → text_bytes (cs ++ ds) ≡ text_bytes cs + text_bytes ds
text_bytes-append [] ds = omega arith
text_bytes-append (c ∷ cs) ds = omega (arith, text_bytes-append cs ds)

-- More than a log may hold.
abbrev pub is_over : (limit : ℕ) → List Chunk → Bool
is_over limit cs = (ltb 0 limit && ltb limit (text_bytes cs)) || ltb max_test_run_chunks (length cs)

-- Dropping each of them was needed: with it, the log was over.
abbrev pub IsNeeded : (limit : ℕ) → (dropped kept : List Chunk) → Type 0
IsNeeded limit [] kept = Unit
IsNeeded limit (d ∷ ds) kept = (is_over limit (d ∷ ds ++ kept) ≡ true) × IsNeeded limit ds kept

pub IsNeeded-longer :
    (limit : ℕ) (ds kept more : List Chunk)
    → IsNeeded limit ds kept
    → IsNeeded limit ds (kept ++ more)
IsNeeded-longer limit [] kept more h = tt
IsNeeded-longer limit (d ∷ ds) kept more h = (
  ground (
    arith,
    text_bytes-append ds kept,
    text_bytes-append kept more,
    text_bytes-append ds (kept ++ more),
    length-append ds kept,
    length-append kept more,
    length-append ds (kept ++ more),
  ),
  IsNeeded-longer limit ds kept more h.1,
)

pub IsNeeded-twice :
    (limit : ℕ) (ds es kept : List Chunk)
    → IsNeeded limit ds (es ++ kept)
    → IsNeeded limit es kept
    → IsNeeded limit (ds ++ es) kept
IsNeeded-twice limit [] es kept h i = i
IsNeeded-twice limit (d ∷ ds) es kept h i =
    (rw (append_assoc ds es kept) h.0, IsNeeded-twice limit ds es kept h.1 i)

-- What rolling a list off leaves.
pub record IsRolled (limit : ℕ) (cs : List Chunk) (out : ℕ × List Chunk) : Type 0 where
  pub dropped : List Chunk
  pub split : dropped ++ out.1 ≡ cs
  pub sized : out.0 ≡ text_bytes out.1
  pub needed : IsNeeded limit dropped out.1
  pub newest : (cs ≡ []) ⊎ (0 < length out.1)

pub roll_bytes-IsRolled :
    (limit retained : ℕ) (cs : List Chunk)
    → retained ≡ text_bytes cs
    → IsRolled limit cs (roll_bytes limit retained cs)
unfolding roll_bytes
roll_bytes-IsRolled limit retained [] h = record {
  dropped = [];
  split = refl;
  sized = h;
  needed = tt;
  newest = inl refl;
}
roll_bytes-IsRolled limit retained (c ∷ []) h = record {
  dropped = [];
  split = refl;
  sized = h;
  needed = tt;
  newest = inr (omega arith);
}
roll_bytes-IsRolled limit retained (c ∷ d ∷ rest) h =
    elim (Bool-cases (ltb 0 retained && ltb 0 limit && ltb limit retained)) [
      | inl e ↦
          let i =
            roll_bytes-IsRolled limit (retained - length c.text) (d ∷ rest) (omega (arith, h)) in
          rw e (record {
            dropped = c ∷ i.dropped;
            split = ap (λ l. c ∷ l) i.split;
            sized = i.sized;
            needed = (rw i.split (ground arith), i.needed);
            newest = ground arith;
          })
      | inr e ↦ rw e (record {
        dropped = [];
        split = refl;
        sized = h;
        needed = tt;
        newest = inr (omega arith);
      })
    ]

pub roll_count-IsRolled :
    (limit retained : ℕ) (cs : List Chunk)
    → retained ≡ text_bytes cs
    → IsRolled limit cs (roll_count max_test_run_chunks retained cs)
unfolding roll_count
roll_count-IsRolled limit retained [] h = record {
  dropped = [];
  split = refl;
  sized = h;
  needed = tt;
  newest = inl refl;
}
roll_count-IsRolled limit retained (c ∷ rest) h =
    elim (Bool-cases (ltb max_test_run_chunks (length (c ∷ rest)))) [
      | inl e ↦
          let i = roll_count-IsRolled limit (retained - length c.text) rest (omega (arith, h)) in
          rw e (record {
            dropped = c ∷ i.dropped;
            split = ap (λ l. c ∷ l) i.split;
            sized = i.sized;
            needed = (rw i.split (ground arith), i.needed);
            newest = elim i.newest [
              | inl empty ↦ absurd (ground arith)
              | inr some_left ↦ inr some_left
            ];
          })
      | inr e ↦ rw e (record {
        dropped = [];
        split = refl;
        sized = h;
        needed = tt;
        newest = inr (omega arith);
      })
    ]

-- Neither is what rolling leaves over.
pub roll_bytes-fits :
    (limit retained : ℕ) (cs : List Chunk)
    → retained ≡ text_bytes cs
    → let out = roll_bytes limit retained cs in
      (length out.1 ≤ 1) ⊎ ((ltb 0 limit && ltb limit (text_bytes out.1)) ≡ false)
unfolding roll_bytes
roll_bytes-fits limit retained [] h = inl (omega arith)
roll_bytes-fits limit retained (c ∷ []) h = inl (omega arith)
roll_bytes-fits limit retained (c ∷ d ∷ rest) h =
    elim (Bool-cases (ltb 0 retained && ltb 0 limit && ltb limit retained)) [
      | inl e ↦
          rw e (roll_bytes-fits limit (retained - length c.text) (d ∷ rest) (omega (arith, h)))
      | inr e ↦ rw e (inr (ground arith))
    ]

pub roll_count-fits :
    (retained : ℕ) (cs : List Chunk)
    → length (roll_count max_test_run_chunks retained cs).1 ≤ max_test_run_chunks
unfolding roll_count
roll_count-fits retained [] = omega arith
roll_count-fits retained (c ∷ rest) =
    ground (arith, roll_count-fits (retained - length c.text) rest)
