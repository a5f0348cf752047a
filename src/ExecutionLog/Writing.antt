-- ===== src/ExecutionLog/Writing.antt =====
-- What a call of WriteChunk in internal/handlers/executionlogsink.go does to the tables.
use webhook_ui.Common.{
  ℕ, ◌+◌, ◌≤◌, ◌<◌, ◌≡◌, ◌≢◌, ◌⊎◌, inl, inr, refl, subst, sym, ap, ◌∙◌, true, false, List, [], ◌∷◌,
  ◌++◌, length, ◌==◌, ==_refl, All, List-cases, Bool-cases, nat_eq, if◌then◌else◌, arith, Bytes,
  append-nil,
}
use webhook_ui.Store.{Stream, LogRow, Db}
use webhook_ui.ExecutionLog.{ExecutionLogSink, WriteFaults, write_chunk}
use webhook_ui.ExecutionLog.Rows.{rows_of, IsAscending, HasIds, chunk_bytes, rows_of-append}
use webhook_ui.ExecutionLog.Rolling.{IsLogged, IsNeeded, trim-IsRolled, trim_fits}

All-append :
    (P : LogRow → Type 0) (rows : List LogRow) (l : LogRow)
    → All P rows
    → P l
    → All P (rows ++ l ∷ [])
All-append P [] l h i = (i, tt)
All-append P (m ∷ rows) l h i = (h.0, All-append P rows l h.1 i)

known_longer :
    (n : ℕ) (rows : List LogRow) → All (λ m. m.id ≤ n) rows → All (λ m. m.id ≤ n + 1) rows
known_longer n [] h = tt
known_longer n (m ∷ rows) h = (omega (arith, h.0), known_longer n rows h.1)

numbered_longer :
    (n : ℕ) (rows : List LogRow) → All (λ m. m.seq ≤ n) rows → All (λ m. m.seq ≤ n + 1) rows
numbered_longer n [] h = tt
numbered_longer n (m ∷ rows) h = (omega (arith, h.0), numbered_longer n rows h.1)

HasIds-append :
    (n : ℕ) (logs : List LogRow) (l : LogRow)
    → HasIds logs
    → All (λ m. m.id ≤ n) logs
    → l.id ≡ n + 1
    → HasIds (logs ++ l ∷ [])
HasIds-append n [] l h i e = (tt, tt)
HasIds-append n (m ∷ logs) l h i e = (
  All-append (λ k. m.id < k.id) logs l h.0 (omega (arith, i.0, e)),
  HasIds-append n logs l h.1 i.1 e,
)

IsAscending-append :
    (n : ℕ) (rows : List LogRow) (l : LogRow)
    → IsAscending rows
    → All (λ m. m.seq ≤ n) rows
    → l.seq ≡ n + 1
    → IsAscending (rows ++ l ∷ [])
IsAscending-append n [] l h i e = (tt, tt)
IsAscending-append n (m ∷ rows) l h i e = (
  All-append (λ k. m.seq < k.seq) rows l h.0 (omega (arith, i.0, e)),
  IsAscending-append n rows l h.1 i.1 e,
)

chunk_bytes-append :
    (rows : List LogRow) (l : LogRow)
    → chunk_bytes (rows ++ l ∷ []) ≡ chunk_bytes rows + length l.chunk
chunk_bytes-append [] l = omega arith
chunk_bytes-append (m ∷ rows) l = omega (arith, chunk_bytes-append rows l)

-- The row that a call inserts.
abbrev pub new_row : Stream → Bytes → ExecutionLogSink → Db → LogRow
new_row stream chunk s db = record {
  id = db.last_log + 1;
  execution_id = s.exec_id;
  seq = s.seq + 1;
  stream = stream;
  chunk = chunk;
}

rows_of-new_row :
    (stream : Stream) (chunk : Bytes) (s : ExecutionLogSink) (db : Db)
    → rows_of s.exec_id (db.logs ++ new_row stream chunk s db ∷ [])
      ≡ rows_of s.exec_id db.logs ++ new_row stream chunk s db ∷ []
rows_of-new_row stream chunk s db =
    rows_of-append s.exec_id db.logs (new_row stream chunk s db ∷ [])
    ∙ ap (λ r. rows_of s.exec_id db.logs ++ r) (unfold rows_of in ground (arith, ==_refl s.exec_id))

rows_of-new_row_other :
    (stream : Stream) (chunk : Bytes) (s : ExecutionLogSink) (db : Db) (y : ℕ)
    → s.exec_id == y ≡ false
    → rows_of y (db.logs ++ new_row stream chunk s db ∷ []) ≡ rows_of y db.logs
rows_of-new_row_other stream chunk s db y n =
    let not_its : rows_of y (new_row stream chunk s db ∷ []) ≡ [] =
      unfold rows_of in ground (arith, n) in
    rows_of-append y db.logs (new_row stream chunk s db ∷ [])
    ∙ ap (λ r. rows_of y db.logs ++ r) not_its
    ∙ append-nil (rows_of y db.logs)

-- The sink and the table after the insertion.
abbrev inserted : Bytes → ExecutionLogSink → ExecutionLogSink
inserted chunk s = record s { seq = s.seq + 1; retained = s.retained + length chunk }

inserted-IsLogged :
    (stream : Stream) (chunk : Bytes) (s : ExecutionLogSink) (db : Db)
    → IsLogged s db.last_log db.logs
    → IsLogged (inserted chunk s) (db.last_log + 1) (db.logs ++ new_row stream chunk s db ∷ [])
inserted-IsLogged stream chunk s db i =
    let l = new_row stream chunk s db in
    let rows = rows_of s.exec_id db.logs in
    let back = sym (rows_of-new_row stream chunk s db) in
    record {
      ids = HasIds-append db.last_log db.logs l i.ids i.known refl;
      known =
          All-append (λ m. m.id ≤ db.last_log + 1) db.logs l
            (known_longer db.last_log db.logs i.known) (omega arith);
      ascending =
          subst (λ r. IsAscending r) back
            (IsAscending-append s.seq rows l i.ascending i.numbered refl);
      numbered =
          subst (λ r. All (λ m. m.seq ≤ s.seq + 1) r) back
            (All-append (λ m. m.seq ≤ s.seq + 1) rows l (numbered_longer s.seq rows i.numbered)
              (omega arith));
      sized =
          subst (λ r. s.retained + length chunk ≡ chunk_bytes r) back
            (omega (arith, i.sized, chunk_bytes-append rows l));
    }

length-rows_of-le : (x : ℕ) (logs : List LogRow) → length (rows_of x logs) ≤ length logs
unfolding rows_of
length-rows_of-le x [] = omega arith
length-rows_of-le x (l ∷ logs) = ground (arith, length-rows_of-le x logs)

-- What a call of WriteChunk leaves.
pub record IsWritten (f : WriteFaults) (s : ExecutionLogSink) (db : Db) (added : List LogRow)
    (s' : ExecutionLogSink) (db' : Db) : Type 0 where
  pub logged : IsLogged s' db'.last_log db'.logs
  pub same_exec : s'.exec_id ≡ s.exec_id
  pub same_limit : s'.limit_bytes ≡ s.limit_bytes
  pub next_seq : s'.seq ≡ s.seq + 1
  pub dropped : List LogRow
  pub split : dropped ++ rows_of s.exec_id db'.logs ≡ rows_of s.exec_id db.logs ++ added
  pub spared : All (λ m. m.seq < s.seq + 1) dropped
  pub needed : IsNeeded s.limit_bytes dropped (rows_of s.exec_id db'.logs)
  pub fits :
      (f.insert ≡ true)
      ⊎ ((f.trims ≢ [])
          ⊎ ((s.limit_bytes ≡ 0)
              ⊎ ((s'.retained ≤ s.limit_bytes) ⊎ (length (rows_of s.exec_id db'.logs) ≤ 1))))
  pub others : (y : ℕ) → s.exec_id == y ≡ false → rows_of y db'.logs ≡ rows_of y db.logs
  pub elsewhere : db' ≡ record db { logs = db'.logs; last_log = db'.last_log }

-- A call of WriteChunk, on a table whose ids and whose numbers for the execution ascend, and with a
-- sink that counts the execution's bytes: all of this holds again, under the next number even where
-- the insertion fails; the execution's rows are the end of those before with the new one behind
-- them, each row that went had to go because the log was over its limit with it, and the new row
-- never goes; without a fault the log ends within its limit, or with one row; and no row of
-- another execution and no other table changes.
pub write_chunk-IsWritten :
    (f : WriteFaults) (stream : Stream) (chunk : Bytes) (s : ExecutionLogSink) (db : Db)
    → IsLogged s db.last_log db.logs
    → let out = write_chunk f stream chunk (s, db) in
      IsWritten f s db (if f.insert then [] else new_row stream chunk s db ∷ []) out.0 out.1
unfolding write_chunk
write_chunk-IsWritten f stream chunk s db i = elim (Bool-cases f.insert) [
  | inl e ↦
      rw (e, write_chunk)
        (record {
          logged = record {
            ids = i.ids;
            known = i.known;
            ascending = i.ascending;
            numbered = numbered_longer s.seq (rows_of s.exec_id db.logs) i.numbered;
            sized = i.sized;
          };
          same_exec = refl;
          same_limit = refl;
          next_seq = refl;
          dropped = [];
          split = sym (append-nil (rows_of s.exec_id db.logs));
          spared = tt;
          needed = tt;
          fits = inl refl;
          others = λ y n. refl;
          elsewhere = refl;
        })
  | inr e ↦
      let logs = db.logs ++ new_row stream chunk s db ∷ [] in
      let logged = inserted-IsLogged stream chunk s db i in
      let r =
        trim-IsRolled (length logs) (db.last_log + 1) f.trims (inserted chunk s) logs logged in
      rw (e, write_chunk)
        (record {
          logged = r.logged;
          same_exec = r.same_exec;
          same_limit = r.same_limit;
          next_seq = r.same_seq;
          dropped = r.dropped;
          split = r.split ∙ rows_of-new_row stream chunk s db;
          spared = r.spared;
          needed = r.needed;
          fits = inr (elim (List-cases f.trims) [
            | inr (fault, more, g) ↦ inl (λ z. ground (arith, sym z ∙ g))
            | inl g ↦ inr (
                rw g (
                  trim_fits (length logs) (db.last_log + 1) (inserted chunk s) logs logged
                    (length-rows_of-le s.exec_id logs)))
          ]);
          others = λ y n. r.others y n ∙ rows_of-new_row_other stream chunk s db y n;
          elsewhere = refl;
        })
]
