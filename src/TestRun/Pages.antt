-- ===== src/TestRun/Pages.antt =====
-- What page of internal/handlers/testrun.go answers with.
use webhook_ui.Common.{
  ℕ, zero, suc, ◌+◌, ◌≤◌, ◌<◌, ◌≡◌, ◌⊎◌, inl, inr, refl, sym, ◌∙◌, ap, String, Bool, true, false,
  List, [], ◌∷◌, ◌++◌, All, length, Bytes, arith, Bool-cases, ℤ, pos, is_below, if◌then◌else◌,
}
use webhook_ui.Store.{Stream}
use webhook_ui.TestRun.{
  Chunk, TestRun, TestRunPage, new_test_run, collect, page, max_log_chunks_per_response,
  oldest_seq_of,
}
use webhook_ui.TestRun.Log.{write_all-new_test_run-IsLog}
use webhook_ui.TestRun.Rolled.{write_all, numbered}

-- The chunks behind a cursor.
abbrev pub behind : ℤ → List Chunk → List Chunk
behind cursor [] = []
behind cursor (c ∷ cs) = if is_below cursor c.seq then c ∷ behind cursor cs else behind cursor cs

abbrev pub is_more : List Chunk → Bool
is_more [] = false
is_more (_ ∷ _) = true

abbrev IsAscending : List Chunk → Type 0
IsAscending [] = Unit
IsAscending (c ∷ cs) = All (λ d. c.seq < d.seq) cs × IsAscending cs

-- Cursors that say the same of each chunk.
abbrev AreAlike : (a b : ℤ) → List Chunk → Type 0
AreAlike a b = All (λ d. is_below a d.seq ≡ is_below b d.seq)

behind_alike : (a b : ℤ) (cs : List Chunk) → AreAlike a b cs → behind a cs ≡ behind b cs
behind_alike a b [] h = refl
behind_alike a b (c ∷ cs) h = ground (arith, behind_alike a b cs h.1)

alike_refl : (a : ℤ) (cs : List Chunk) → AreAlike a a cs
alike_refl a [] = tt
alike_refl a (c ∷ cs) = (refl, alike_refl a cs)

is_below_larger : (a : ℤ) (m n : ℕ) → is_below a m ≡ true → m < n → is_below a n ≡ true
is_below_larger (pos x) m n h i = ground arith
is_below_larger (ℤ.negsuc x) m n h i = refl

-- Past a chunk that is behind the cursor, all are.
alike_later :
    (a : ℤ) (n : ℕ) (cs : List Chunk)
    → is_below a n ≡ true
    → All (λ d. n < d.seq) cs
    → AreAlike a (pos n) cs
alike_later a n [] h i = tt
alike_later a n (c ∷ cs) h i =
    (ground (arith, is_below_larger a n c.seq h i.0), alike_later a n cs h i.1)

-- What is at or before the cursor stays so.
collect_onward :
    (left : ℕ) (after next : ℤ) (k : ℕ) (cs : List Chunk)
    → All (λ d. k < d.seq) cs
    → is_below next k ≡ false
    → is_below (collect left after next cs).1 k ≡ false
unfolding collect
collect_onward left after next k [] h i = i
collect_onward zero after next k (c ∷ cs) h i =
    ground (arith, collect_onward zero after next k cs h.1 i)
collect_onward (suc left) after next k (c ∷ cs) h i = ground (
  arith,
  collect_onward (suc left) after next k cs h.1 i,
  collect_onward left after (pos c.seq) k cs h.1,
  h.0,
)

collect_splits :
    (left : ℕ) (after next : ℤ) (cs : List Chunk)
    → IsAscending cs
    → AreAlike after next cs
    → let out = collect left after next cs in
      (behind after cs ≡ out.0 ++ behind out.1 cs) × (out.2 ≡ is_more (behind out.1 cs))
unfolding collect
collect_splits left after next [] up h = (refl, refl)
collect_splits zero after next (c ∷ cs) up h = elim (Bool-cases (is_below after c.seq)) [
  | inl e ↦ ground (arith, behind_alike after next cs h.1, h.0)
  | inr e ↦ ground (
    arith,
    collect_splits zero after next cs up.1 h.1,
    collect_onward zero after next c.seq cs up.0,
    h.0,
  )
]
collect_splits (suc left) after next (c ∷ cs) up h = elim (Bool-cases (is_below after c.seq)) [
  | inl e ↦ ground (
    arith,
    collect_splits left after (pos c.seq) cs up.1 (alike_later after c.seq cs e up.0),
    collect_onward left after (pos c.seq) c.seq cs up.0,
  )
  | inr e ↦ ground (
    arith,
    collect_splits (suc left) after next cs up.1 h.1,
    collect_onward (suc left) after next c.seq cs up.0,
    h.0,
  )
]

collect-le :
    (left : ℕ) (after next : ℤ) (cs : List Chunk) → length (collect left after next cs).0 ≤ left
unfolding collect
collect-le left after next [] = omega arith
collect-le zero after next (c ∷ cs) = ground (arith, collect-le zero after next cs)
collect-le (suc left) after next (c ∷ cs) =
    ground (arith, collect-le (suc left) after next cs, collect-le left after (pos c.seq) cs)

numbered_above :
    (m n : ℕ) (ws : List (Stream × Bytes)) → m ≤ n → All (λ d. m < d.seq) (numbered n ws)
unfolding numbered
numbered_above m n [] h = tt
numbered_above m n ((stream, chunk) ∷ ws) h =
    (omega (arith, h), numbered_above m (n + 1) ws (omega (arith, h)))

numbered-IsAscending : (n : ℕ) (ws : List (Stream × Bytes)) → IsAscending (numbered n ws)
unfolding numbered
numbered-IsAscending n [] = tt
numbered-IsAscending n ((stream, chunk) ∷ ws) =
    (numbered_above (n + 1) (n + 1) ws (omega arith), numbered-IsAscending (n + 1) ws)

end-IsAscending : (ds cs : List Chunk) → IsAscending (ds ++ cs) → IsAscending cs
end-IsAscending [] cs h = h
end-IsAscending (d ∷ ds) cs h = end-IsAscending ds cs h.1

behind-append : (a : ℤ) (ds cs : List Chunk) → behind a (ds ++ cs) ≡ behind a ds ++ behind a cs
behind-append a [] cs = refl
behind-append a (d ∷ ds) cs = ground (arith, behind-append a ds cs)

All-append :
    (n : ℕ) (ds cs : List Chunk) → All (λ d. n < d.seq) (ds ++ cs) → All (λ d. n < d.seq) cs
All-append n [] cs h = h
All-append n (d ∷ ds) cs h = All-append n ds cs h.1

behind_before :
    (a : ℤ) (ds : List Chunk) (c : Chunk) (cs : List Chunk)
    → IsAscending (ds ++ c ∷ cs)
    → All (λ d. d.seq < c.seq) (behind a ds)
behind_before a [] c cs h = tt
behind_before a (d ∷ ds) c cs h =
    ground (arith, All-append d.seq ds (c ∷ cs) h.0, behind_before a ds c cs h.1)

lost_before :
    (a : ℤ) (ds cs : List Chunk)
    → IsAscending (ds ++ cs)
    → (ds ++ cs ≡ []) ⊎ (0 < length cs)
    → All (λ d. d.seq < oldest_seq_of cs) (behind a ds)
lost_before a ds (c ∷ cs) up h = behind_before a ds c cs up
lost_before a [] [] up h = tt
lost_before a (d ∷ ds) [] up (inl e) = absurd (omega (arith, ap length e))
lost_before a (d ∷ ds) [] up (inr h) = absurd (omega (arith, h))

-- A page for a cursor, of the log of a run that has written `all`.
pub record IsPage (all : List Chunk) (after : ℤ) (r : TestRun) (p : TestRunPage) : Type 0 where
  -- what the cursor has not seen and the log no longer holds
  pub lost : List Chunk
  pub split : behind after all ≡ lost ++ (p.chunks ++ behind p.next_seq r.chunks)
  pub seen_lost : All (λ d. d.seq < p.oldest_seq) lost
  pub more : p.has_more ≡ is_more (behind p.next_seq r.chunks)
  pub bounded : length p.chunks ≤ max_log_chunks_per_response

-- Whatever a run has written, of the output behind a client's cursor a page misses only chunks
-- that are older than the oldest number it names; then it holds the chunks that follow, in their
-- order, at most 500, and what is still behind the new cursor comes after them. It says
-- that there is more exactly if the log has chunks behind the new cursor.
pub page-IsPage :
    (id : String) (now limit : ℕ) (ws : List (Stream × Bytes)) (after : ℤ)
    → let r = write_all ws (new_test_run id now limit) in
      IsPage (numbered 0 ws) after r (page after r)
unfolding page
page-IsPage id now limit ws after =
    let r = write_all ws (new_test_run id now limit) in
    let log = write_all-new_test_run-IsLog id now limit ws in
    let up : IsAscending (log.dropped ++ r.chunks) = rw log.split (numbered-IsAscending 0 ws) in
    let (split, more) =
      collect_splits max_log_chunks_per_response after after r.chunks
        (end-IsAscending log.dropped r.chunks up) (alike_refl after r.chunks) in
    record {
      lost = behind after log.dropped;
      split = rw (sym log.split) (
          behind-append after log.dropped r.chunks ∙ ap (λ l. behind after log.dropped ++ l) split);
      seen_lost = lost_before after log.dropped r.chunks up (rw log.split log.newest);
      more = more;
      bounded = collect-le max_log_chunks_per_response after after r.chunks;
    }
