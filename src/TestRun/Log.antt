-- ===== src/TestRun/Log.antt =====
-- What WriteChunk of internal/handlers/testrun.go leaves in a run's log.
use webhook_ui.Common.{
  ℕ, ◌+◌, ◌≤◌, ◌<◌, ◌≡◌, ◌⊎◌, inl, inr, refl, sym, ap, ◌∙◌, String, false, List, [], ◌∷◌, ◌++◌,
  append_assoc, append-nil, length, length-append, Bytes, arith,
}
use webhook_ui.Store.{Stream}
use webhook_ui.TestRun.{
  Chunk, TestRun, new_test_run, roll_bytes, roll_count, write_chunk, max_test_run_chunks,
}
use webhook_ui.TestRun.Rolled.{
  IsNeeded, IsNeeded-longer, IsNeeded-twice, IsRolled, is_over, numbered, roll_bytes-IsRolled,
  roll_bytes-fits, roll_count-IsRolled, roll_count-fits, text_bytes, text_bytes-append, write_all,
}

-- The log of a run that has written `all`: its end, whole where that is not over, and otherwise as
-- much as is not over, but at least the newest chunk.
pub record IsLog (limit : ℕ) (r : TestRun) (all : List Chunk) : Type 0 where
  pub same_limit : r.limit_bytes ≡ limit
  pub dropped : List Chunk
  pub split : dropped ++ r.chunks ≡ all
  pub sized : r.retained ≡ text_bytes r.chunks
  pub needed : IsNeeded r.limit_bytes dropped r.chunks
  pub fits : (length r.chunks ≤ 1) ⊎ (is_over r.limit_bytes r.chunks ≡ false)
  pub newest : (all ≡ []) ⊎ (0 < length r.chunks)

IsRolled-twice :
    (limit : ℕ) (cs : List Chunk)
    → let once = roll_bytes limit (text_bytes cs) cs in
      let twice = roll_count max_test_run_chunks once.0 once.1 in
      IsRolled limit cs twice × ((length twice.1 ≤ 1) ⊎ (is_over limit twice.1 ≡ false))
IsRolled-twice limit cs =
    let once = roll_bytes limit (text_bytes cs) cs in
    let i = roll_bytes-IsRolled limit (text_bytes cs) cs refl in
    let j = roll_count-IsRolled limit once.0 once.1 i.sized in
    let twice = roll_count max_test_run_chunks once.0 once.1 in
    let sizes = ap text_bytes j.split in
    let lengths = ap length j.split in
    (
      record {
        dropped = i.dropped ++ j.dropped;
        split =
            append_assoc i.dropped j.dropped twice.1 ∙ ap (λ l. i.dropped ++ l) j.split ∙ i.split;
        sized = j.sized;
        needed = IsNeeded-twice limit i.dropped j.dropped twice.1 (rw j.split i.needed) j.needed;
        newest = elim i.newest [
          | inl e ↦ inl e
          | inr h ↦ elim j.newest [ inl e ↦ absurd (ground (arith, ap length e)) | inr h' ↦ inr h' ]
        ];
      },
      ground (
        arith,
        sizes,
        lengths,
        text_bytes-append j.dropped twice.1,
        length-append j.dropped twice.1,
        roll_bytes-fits limit (text_bytes cs) cs refl,
        roll_count-fits once.0 once.1,
      ),
    )

write_chunk-IsLog :
    (stream : Stream) (chunk : Bytes) (limit : ℕ) (r : TestRun) (all : List Chunk)
    → IsLog limit r all
    → IsLog limit
        (write_chunk stream chunk r)
        (all ++ record { seq = r.seq + 1; stream = stream; text = chunk } ∷ [])
unfolding write_chunk
write_chunk-IsLog stream chunk limit r all i =
    let new : Chunk = record { seq = r.seq + 1; stream = stream; text = chunk } in
    let cs = r.chunks ++ new ∷ [] in
    let sized : r.retained + length chunk ≡ text_bytes cs =
      omega (arith, i.sized, text_bytes-append r.chunks (new ∷ [])) in
    let (j, fits) = IsRolled-twice r.limit_bytes cs in
    let rolled =
      roll_count max_test_run_chunks (roll_bytes r.limit_bytes (text_bytes cs) cs).0
        (roll_bytes r.limit_bytes (text_bytes cs) cs).1 in
    rw sized (record {
      same_limit = i.same_limit;
      dropped = i.dropped ++ j.dropped;
      split =
          append_assoc i.dropped j.dropped rolled.1
          ∙ ap (λ l. i.dropped ++ l) j.split
          ∙ sym (append_assoc i.dropped r.chunks (new ∷ []))
          ∙ ap (λ l. l ++ new ∷ []) i.split;
      sized = j.sized;
      needed =
          IsNeeded-twice r.limit_bytes i.dropped j.dropped rolled.1
            (rw j.split (IsNeeded-longer r.limit_bytes i.dropped r.chunks (new ∷ []) i.needed))
            j.needed;
      fits = fits;
      newest = elim j.newest [
        | inl e ↦ absurd (ground (arith, ap length e, length-append r.chunks (new ∷ [])))
        | inr h ↦ inr h
      ];
    })

write_all-IsLog :
    (ws : List (Stream × Bytes)) (limit : ℕ) (r : TestRun) (all : List Chunk)
    → IsLog limit r all
    → IsLog limit (write_all ws r) (all ++ numbered r.seq ws)
unfolding write_all numbered write_chunk
write_all-IsLog [] limit r all i = rw (append-nil all) i
write_all-IsLog ((stream, chunk) ∷ ws) limit r all i =
    let new : Chunk = record { seq = r.seq + 1; stream = stream; text = chunk } in
    rw (sym (append_assoc all (new ∷ []) (numbered (r.seq + 1) ws))) (
      write_all-IsLog ws limit (write_chunk stream chunk r) (all ++ new ∷ [])
        (write_chunk-IsLog stream chunk limit r all i))

-- However a run's script writes, its log is the longest end of the output that holds at most
-- 20000 chunks and, where there is a limit, no more bytes than it, or else the newest chunk alone;
-- the output is numbered from 1 without a gap, and what is counted is the bytes of the log.
pub write_all-new_test_run-IsLog :
    (id : String) (now limit : ℕ) (ws : List (Stream × Bytes))
    → IsLog limit (write_all ws (new_test_run id now limit)) (numbered 0 ws)
write_all-new_test_run-IsLog id now limit ws =
    write_all-IsLog ws limit (new_test_run id now limit) [] (record {
      same_limit = refl;
      dropped = [];
      split = refl;
      sized = refl;
      needed = tt;
      fits = inl (omega arith);
      newest = inl refl;
    })
