-- ===== src/ExecutionLog/Reading/Pages.antt =====
-- A page of a log and the rows behind its cursor are the rows that the page's query met.
use webhook_ui.Common.{
  ℕ, zero, suc, ◌≤◌, ◌<◌, ◌≡◌, ◌≢◌, ◌↔◌, refl, sym, ap, ◌∙◌, Bool, true, false, not, ◌&&◌, some,
  List, [], ◌∷◌, ◌++◌, length, take, drop, take-append-drop, All, nat_eq, if◌then◌else◌, lookup, ℤ,
  pos, is_below, arith,
}
use webhook_ui.Store.{LogRow, Db, Execution}
use webhook_ui.ExecutionLog.Rows.{rows_of, IsAscending}
use webhook_ui.ExecutionLog.Reading.{
  max_log_chunks_per_response, rows_after, insert_by_seq, order_by_seq, next_seq_of, is_some_row,
  LogsPage, LogsReply, logs, logs_page,
}

insert_by_seq-ascending :
    (l : LogRow) (rows : List LogRow)
    → All (λ m. l.seq < m.seq) rows
    → insert_by_seq l rows ≡ l ∷ rows
unfolding insert_by_seq
insert_by_seq-ascending l [] h = refl
insert_by_seq-ascending l (m ∷ rows) h = ground (arith, h.0)

order_by_seq-ascending : (rows : List LogRow) → IsAscending rows → order_by_seq rows ≡ rows
unfolding order_by_seq
order_by_seq-ascending [] up = refl
order_by_seq-ascending (l ∷ rows) up =
    ap (insert_by_seq l) (order_by_seq-ascending rows up.1) ∙ insert_by_seq-ascending l rows up.0

All-rows_after :
    (n x : ℕ) (after : ℤ) (logs : List LogRow)
    → All (λ m. n < m.seq) (rows_of x logs)
    → All (λ m. n < m.seq) (rows_after x after logs)
unfolding rows_after rows_of
All-rows_after n x after [] h = tt
All-rows_after n x after (l ∷ logs) h = ground (arith, h, All-rows_after n x after logs)

rows_after-IsAscending :
    (x : ℕ) (after : ℤ) (logs : List LogRow)
    → IsAscending (rows_of x logs)
    → IsAscending (rows_after x after logs)
unfolding rows_after rows_of
rows_after-IsAscending x after [] up = tt
rows_after-IsAscending x after (l ∷ logs) up =
    ground (arith, up, All-rows_after l.seq x after logs, rows_after-IsAscending x after logs)

-- A cursor that is not behind the other.
abbrev IsOnward : (after next : ℤ) → Type 0
IsOnward after next = (k : ℕ) → is_below after k ≡ false → is_below next k ≡ false

-- Rows behind a cursor, among rows.
abbrev pub behind : ℤ → List LogRow → List LogRow
behind cursor [] = []
behind cursor (l ∷ rows) =
    if is_below cursor l.seq then l ∷ behind cursor rows else behind cursor rows

rows_after-behind :
    (x : ℕ) (after next : ℤ) (logs : List LogRow)
    → IsOnward after next
    → rows_after x next logs ≡ behind next (rows_after x after logs)
unfolding rows_after
rows_after-behind x after next [] h = refl
rows_after-behind x after next (l ∷ logs) h =
    ground (arith, h l.seq, rows_after-behind x after next logs h)

All-below :
    (x : ℕ) (after : ℤ) (logs : List LogRow)
    → All (λ m. is_below after m.seq ≡ true) (rows_after x after logs)
unfolding rows_after
All-below x after [] = tt
All-below x after (l ∷ logs) = ground (arith, All-below x after logs)

behind_all :
    (next : ℤ) (rows : List LogRow)
    → All (λ m. is_below next m.seq ≡ true) rows
    → behind next rows ≡ rows
behind_all next [] h = refl
behind_all next (l ∷ rows) h = ground (arith, h.0, behind_all next rows h.1)

IsOnward-step : (next : ℤ) (n : ℕ) → is_below next n ≡ true → IsOnward next (pos n)
IsOnward-step (pos x) n h = λ k i. ground (arith, h, i)
IsOnward-step (ℤ.negsuc x) n h = λ k i. absurd (ground (arith, i))

later_below :
    (n : ℕ) (rows : List LogRow)
    → All (λ m. n < m.seq) rows
    → All (λ m. is_below (pos n) m.seq ≡ true) rows
later_below n [] h = tt
later_below n (m ∷ rows) h = (ground (arith, h.0), later_below n rows h.1)

-- The cursor behind the first rows has the others behind it.
take-IsOnward :
    (n : ℕ) (next : ℤ) (rows : List LogRow)
    → IsAscending rows
    → All (λ m. is_below next m.seq ≡ true) rows
    → let next' = next_seq_of next (take n rows) in
      (behind next' rows ≡ drop n rows) × IsOnward next next'
unfolding next_seq_of
take-IsOnward zero next rows up h = (behind_all next rows h, λ k i. i)
take-IsOnward (suc n) next [] up h = (refl, λ k i. i)
take-IsOnward (suc n) next (l ∷ rows) up h =
    let (rest, onward) = take-IsOnward n (pos l.seq) rows up.1 (later_below l.seq rows up.0) in
    let seen = onward l.seq (ground arith) in
    (ground (arith, rest, seen), λ k i. onward k (IsOnward-step next l.seq h.0 k i))

length-take-le : (n : ℕ) (rows : List LogRow) → length (take n rows) ≤ n
length-take-le zero rows = omega arith
length-take-le (suc n) [] = omega arith
length-take-le (suc n) (l ∷ rows) = omega (arith, length-take-le n rows)

more_iff :
    (fails : Bool) (rows : List LogRow)
    → (not fails && is_some_row rows ≡ true) ↔ ((fails ≡ false) × (rows ≢ []))
more_iff true rows = (λ h. absurd (ground (arith, h)), λ h. absurd (ground (arith, h.0)))
more_iff false [] = (λ h. absurd (ground (arith, h)), λ h. absurd (h.1 refl))
more_iff false (l ∷ rows) = (λ h. (refl, λ e. ground (arith, e)), λ h. refl)

-- What Logs answers with, for an execution that the first query finds.
pub record IsLogsPage (more_fails : Bool) (id : ℕ) (after : ℤ) (second fourth : Db) (p : LogsPage)
    : Type 0 where
  pub split : rows_after id after second.logs ≡ p.chunks ++ rows_after id p.next_seq second.logs
  pub bounded : length p.chunks ≤ max_log_chunks_per_response
  pub more :
      (p.has_more ≡ true) ↔ ((more_fails ≡ false) × (rows_after id p.next_seq fourth.logs ≢ []))

-- Logs, of an execution that is found, and whose rows ascend at the query for them: the page holds
-- at most 500 rows, and these are the first of those behind the client's cursor, in their order, so that
-- exactly the others of these are behind the new cursor; it says that there is more if and only if
-- the last query succeeds and meets rows behind the new cursor, whatever was written or trimmed in
-- between. So where that query fails, the page says that there is no more, also if rows wait.
pub logs-IsLogsPage :
    (oldest_fails more_fails : Bool) (id : ℕ) (after : ℤ) (first second third fourth : Db)
    (e : Execution)
    → lookup id first.executions ≡ some e
    → IsAscending (rows_of id second.logs)
    → (p : LogsPage) × (logs false false oldest_fails more_fails id after first second third fourth
        ≡ LogsReply.page p)
      × IsLogsPage more_fails id after second fourth p
unfolding logs logs_page
logs-IsLogsPage oldest_fails more_fails id after first second third fourth e found up =
    let rows = rows_after id after second.logs in
    let n = max_log_chunks_per_response in
    let up' : IsAscending rows = rows_after-IsAscending id after second.logs up in
    let ordered = ap (take n) (order_by_seq-ascending rows up') in
    let (rest, onward) = take-IsOnward n after rows up' (All-below id after second.logs) in
    let next = next_seq_of after (take n rows) in
    let left : rows_after id next second.logs ≡ drop n rows =
      rows_after-behind id after next second.logs onward ∙ rest in
    (
      logs_page oldest_fails more_fails e id after second third fourth,
      rw (found, logs) refl,
      record {
        split = rw ordered (rw left (sym (take-append-drop n rows)));
        bounded = rw ordered (length-take-le n rows);
        more =
            more_iff more_fails
              (rows_after id (next_seq_of after (take n (order_by_seq rows))) fourth.logs);
      },
    )
