-- ===== src/ExecutionLog/Rolling.antt =====
-- What WriteChunk and trim of internal/handlers/executionlogsink.go leave of the rows.
use webhook_ui.Common.{
  ℕ, zero, suc, ◌-◌, ◌≤◌, ◌<◌, ◌≡◌, ◌≢◌, ◌⊎◌, inl, inr, refl, subst, sym, ap, ◌∙◌, false, none,
  some, List, [], ◌∷◌, ◌++◌, length, ◌==◌, ==_iff, All, List-cases, Option-cases, nat_eq, arith,
}
use webhook_ui.Store.{LogRow}
use webhook_ui.ExecutionLog.{
  ExecutionLogSink, oldest_of, delete_log, TrimFault, no_fault, select_fails, delete_fails,
  next_fault, later_faults, trimmed_row, trim,
}
use webhook_ui.ExecutionLog.Rows.{
  rows_of, IsAscending, HasIds, chunk_bytes, first_row, oldest_of-rows_of, rows_of-delete_log,
  rows_of-delete_log_other, HasIds-delete_log, All-delete_log,
}

-- A sink and the table that it writes: ids and numbers ascend, and the sink counts its bytes.
pub record IsLogged (s : ExecutionLogSink) (last : ℕ) (logs : List LogRow) : Type 0 where
  pub ids : HasIds logs
  pub known : All (λ m. m.id ≤ last) logs
  pub ascending : IsAscending (rows_of s.exec_id logs)
  pub numbered : All (λ m. m.seq ≤ s.seq) (rows_of s.exec_id logs)
  pub sized : s.retained ≡ chunk_bytes (rows_of s.exec_id logs)

-- With each row dropped, the log was over its limit.
abbrev pub IsNeeded : (limit : ℕ) → (dropped kept : List LogRow) → Type 0
IsNeeded limit [] kept = Unit
IsNeeded limit (d ∷ ds) kept =
    (0 < limit) × (limit < chunk_bytes (d ∷ ds ++ kept)) × IsNeeded limit ds kept

-- What trimming leaves.
pub record IsRolled (last : ℕ) (s : ExecutionLogSink) (logs : List LogRow) (s' : ExecutionLogSink)
    (logs' : List LogRow) : Type 0 where
  pub logged : IsLogged s' last logs'
  pub same_exec : s'.exec_id ≡ s.exec_id
  pub same_limit : s'.limit_bytes ≡ s.limit_bytes
  pub same_seq : s'.seq ≡ s.seq
  pub dropped : List LogRow
  pub split : dropped ++ rows_of s.exec_id logs' ≡ rows_of s.exec_id logs
  pub spared : All (λ m. m.seq < s.seq) dropped
  pub needed : IsNeeded s.limit_bytes dropped (rows_of s.exec_id logs')
  pub others : (y : ℕ) → s.exec_id == y ≡ false → rows_of y logs' ≡ rows_of y logs

untouched-IsRolled :
    (last : ℕ) (s : ExecutionLogSink) (logs : List LogRow)
    → IsLogged s last logs
    → IsRolled last s logs s logs
untouched-IsRolled last s logs i = record {
  logged = i;
  same_exec = refl;
  same_limit = refl;
  same_seq = refl;
  dropped = [];
  split = refl;
  spared = tt;
  needed = tt;
  others = λ y n. refl;
}

-- A row that is trimmed is the first, and the log is over its limit.
record IsDue (s : ExecutionLogSink) (logs : List LogRow) (l : LogRow) : Type 0 where
  pub rest : List LogRow
  pub split : rows_of s.exec_id logs ≡ l ∷ rest
  pub limited : 0 < s.limit_bytes
  pub over : s.limit_bytes < s.retained
  pub old : l.seq ≢ s.seq

trimmed_row-IsDue :
    (fault : TrimFault) (s : ExecutionLogSink) (logs : List LogRow) (l : LogRow)
    → IsAscending (rows_of s.exec_id logs)
    → trimmed_row fault s logs ≡ some l
    → IsDue s logs l
unfolding trimmed_row
trimmed_row-IsDue select_fails s logs l up h = absurd (ground (arith, h))
trimmed_row-IsDue delete_fails s logs l up h = absurd (ground (arith, h))
trimmed_row-IsDue no_fault s logs l up h = elim (List-cases (rows_of s.exec_id logs)) [
  | inl e ↦ absurd (ground (arith, h, oldest_of-rows_of s.exec_id logs up, e))
  | inr (m, rest, e) ↦
      let oldest : oldest_of s.exec_id logs ≡ some m =
        rw (sym (ap first_row e)) (oldest_of-rows_of s.exec_id logs up) in
      let same : m ≡ l = ground (arith, h, oldest) in
      record {
        rest = rest;
        split = e ∙ ap (λ r. r ∷ rest) same;
        limited = ground (arith, h);
        over = ground (arith, h);
        old = λ q. ground (arith, h, oldest, q, ap (λ r. r.seq) same, ==_iff m.seq s.seq);
      }
]

-- The sink after one row went.
abbrev without : LogRow → ExecutionLogSink → ExecutionLogSink
without l s = record s { retained = s.retained - length l.chunk }

without-IsLogged :
    (s : ExecutionLogSink) (last : ℕ) (logs : List LogRow) (l : LogRow)
    → IsLogged s last logs
    → IsDue s logs l
    → IsLogged (without l s) last (delete_log l.id logs)
without-IsLogged s last logs l i due =
    let rows = rows_of s.exec_id logs in
    let left : rows_of s.exec_id (delete_log l.id logs) ≡ due.rest =
      rows_of-delete_log s.exec_id logs l due.rest i.ids due.split in
    let up : IsAscending (l ∷ due.rest) = subst (λ r. IsAscending r) due.split i.ascending in
    let low : All (λ m. m.seq ≤ s.seq) (l ∷ due.rest) =
      subst (λ r. All (λ m. m.seq ≤ s.seq) r) due.split i.numbered in
    record {
      ids = HasIds-delete_log l.id logs i.ids;
      known = All-delete_log (λ m. m.id ≤ last) l.id logs i.known;
      ascending = rw left up.1;
      numbered = rw left low.1;
      sized = rw left (omega (arith, i.sized, ap chunk_bytes due.split));
    }

pub trim-IsRolled :
    (fuel last : ℕ) (faults : List TrimFault) (s : ExecutionLogSink) (logs : List LogRow)
    → IsLogged s last logs
    → let out = trim fuel faults s logs in IsRolled last s logs out.0 out.1
unfolding trim
trim-IsRolled zero last faults s logs i = untouched-IsRolled last s logs i
trim-IsRolled (suc fuel) last faults s logs i =
    elim (Option-cases (trimmed_row (next_fault faults) s logs)) [
      | inl e ↦ rw (e, trim) (untouched-IsRolled last s logs i)
      | inr (l, e) ↦
          let due = trimmed_row-IsDue (next_fault faults) s logs l i.ascending e in
          let logs1 = delete_log l.id logs in
          let left = rows_of-delete_log s.exec_id logs l due.rest i.ids due.split in
          let r =
            trim-IsRolled fuel last (later_faults faults) (without l s) logs1
              (without-IsLogged s last logs l i due) in
          let low : All (λ m. m.seq ≤ s.seq) (l ∷ due.rest) =
            subst (λ r. All (λ m. m.seq ≤ s.seq) r) due.split i.numbered in
          let whole = ap (λ rows. l ∷ rows) (r.split ∙ left) in
          rw (e, trim)
            (record {
              logged = r.logged;
              same_exec = r.same_exec;
              same_limit = r.same_limit;
              same_seq = r.same_seq;
              dropped = l ∷ r.dropped;
              split = whole ∙ sym due.split;
              spared = (ground (arith, low.0, due.old), r.spared);
              needed = (
                due.limited,
                omega (arith, due.over, i.sized, ap chunk_bytes due.split, ap chunk_bytes whole),
                r.needed,
              );
              others = λ y n.
                  r.others y n
                  ∙ rows_of-delete_log_other s.exec_id y logs l due.rest i.ids due.split n;
            })
    ]

stops_right :
    (s : ExecutionLogSink) (last : ℕ) (logs : List LogRow)
    → IsLogged s last logs
    → trimmed_row no_fault s logs ≡ none
    → (s.limit_bytes ≡ 0) ⊎ ((s.retained ≤ s.limit_bytes) ⊎ (length (rows_of s.exec_id logs) ≤ 1))
unfolding trimmed_row
stops_right s last logs i h = elim (List-cases (rows_of s.exec_id logs)) [
  | inl e ↦ inr (inr (omega (arith, ap length e)))
  | inr (m, rest, e) ↦
      let oldest : oldest_of s.exec_id logs ≡ some m =
        oldest_of-rows_of s.exec_id logs i.ascending ∙ ap first_row e in
      let up : IsAscending (m ∷ rest) = subst (λ r. IsAscending r) e i.ascending in
      let low : All (λ k. k.seq ≤ s.seq) (m ∷ rest) =
        subst (λ r. All (λ k. k.seq ≤ s.seq) r) e i.numbered in
      elim (List-cases rest) [
        | inl only ↦ inr (inr (omega (arith, ap length e, ap length only)))
        | inr (k, more, e') ↦
            let up' : All (λ j. m.seq < j.seq) (k ∷ more) =
              subst (λ r. All (λ j. m.seq < j.seq) r) e' up.0 in
            let low' : All (λ j. j.seq ≤ s.seq) (k ∷ more) =
              subst (λ r. All (λ j. j.seq ≤ s.seq) r) e' low.1 in
            ground (arith, h, oldest, ==_iff m.seq s.seq, up'.0, low'.0)
      ]
]

-- Without a fault and with a round for each row, trimming ends within the limit, or with one row.
pub trim_fits :
    (fuel last : ℕ) (s : ExecutionLogSink) (logs : List LogRow)
    → IsLogged s last logs
    → length (rows_of s.exec_id logs) ≤ fuel
    → let out = trim fuel [] s logs in
      (s.limit_bytes ≡ 0)
      ⊎ ((out.0.retained ≤ s.limit_bytes) ⊎ (length (rows_of s.exec_id out.1) ≤ 1))
unfolding trim
trim_fits zero last s logs i h = inr (inr (omega (arith, h)))
trim_fits (suc fuel) last s logs i h = elim (Option-cases (trimmed_row no_fault s logs)) [
  | inl e ↦ rw (e, trim) (stops_right s last logs i e)
  | inr (l, e) ↦
      let due = trimmed_row-IsDue no_fault s logs l i.ascending e in
      let left = rows_of-delete_log s.exec_id logs l due.rest i.ids due.split in
      rw (e, trim)
        (trim_fits fuel last (without l s) (delete_log l.id logs)
          (without-IsLogged s last logs l i due)
          (omega (arith, h, ap length left, ap length due.split)))
]
