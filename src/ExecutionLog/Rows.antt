-- ===== src/ExecutionLog/Rows.antt =====
-- The rows of one execution among those of execution_logs.
use webhook_ui.Common.{
  ℕ, ◌+◌, ◌<◌, ◌≡◌, inl, inr, refl, sym, ap, ◌∙◌, false, Option, none, some, List, [], ◌∷◌, ◌++◌,
  length, ◌==◌, ==_iff, All, Bool-cases, nat_eq, if◌then◌else◌, arith,
}
use webhook_ui.Store.{LogRow}
use webhook_ui.ExecutionLog.{oldest_of, earlier, delete_log}

unfoldable pub rows_of : ℕ → List LogRow → List LogRow
rows_of x [] = []
rows_of x (l ∷ logs) = let rest = rows_of x logs in if l.execution_id == x then l ∷ rest else rest

abbrev pub IsAscending : List LogRow → Type 0
IsAscending [] = Unit
IsAscending (l ∷ rows) = All (λ m. l.seq < m.seq) rows × IsAscending rows

-- Rows in the order of their ids, which AUTOINCREMENT never gives twice.
abbrev pub HasIds : List LogRow → Type 0
HasIds [] = Unit
HasIds (l ∷ logs) = All (λ m. l.id < m.id) logs × HasIds logs

abbrev pub chunk_bytes : List LogRow → ℕ
chunk_bytes [] = 0
chunk_bytes (l ∷ rows) = length l.chunk + chunk_bytes rows

abbrev pub first_row : List LogRow → Option LogRow
first_row [] = none
first_row (l ∷ _) = some l

earlier_first :
    (l : LogRow) (rows : List LogRow)
    → All (λ m. l.seq < m.seq) rows
    → earlier l (first_row rows) ≡ some l
earlier_first l [] h = refl
earlier_first l (m ∷ rows) h = ground (arith, h.0)

pub oldest_of-rows_of :
    (x : ℕ) (logs : List LogRow)
    → IsAscending (rows_of x logs)
    → oldest_of x logs ≡ first_row (rows_of x logs)
unfolding oldest_of rows_of
oldest_of-rows_of x [] up = refl
oldest_of-rows_of x (l ∷ logs) up = elim (Bool-cases (l.execution_id == x)) [
  | inr e ↦ rw e (oldest_of-rows_of x logs (ground (arith, up, e)))
  | inl e ↦
      let rest = rows_of x logs in
      let up' : All (λ m. l.seq < m.seq) rest × IsAscending rest = ground (arith, up, e) in
      rw e (ap (earlier l) (oldest_of-rows_of x logs up'.1) ∙ earlier_first l rest up'.0)
]

pub rows_of-append :
    (x : ℕ) (logs more : List LogRow) → rows_of x (logs ++ more) ≡ rows_of x logs ++ rows_of x more
unfolding rows_of
rows_of-append x [] more = refl
rows_of-append x (l ∷ logs) more = ground (arith, rows_of-append x logs more)

-- The ids of an execution's rows are ids.
id_of_row :
    (n x : ℕ) (logs : List LogRow) (l : LogRow) (rest : List LogRow)
    → All (λ m. n < m.id) logs
    → rows_of x logs ≡ l ∷ rest
    → n < l.id
unfolding rows_of
id_of_row n x [] l rest h e = absurd (ground (arith, e))
id_of_row n x (m ∷ logs) l rest h e = ground (arith, h.0, id_of_row n x logs l rest h.1, e)

delete_log_fresh :
    (n : ℕ) (logs : List LogRow) → All (λ m. n < m.id) logs → delete_log n logs ≡ logs
unfolding delete_log
delete_log_fresh n [] h = refl
delete_log_fresh n (m ∷ logs) h = ground (arith, ==_iff m.id n, delete_log_fresh n logs h.1, h.0)

pub rows_of-delete_log :
    (x : ℕ) (logs : List LogRow) (l : LogRow) (rest : List LogRow)
    → HasIds logs
    → rows_of x logs ≡ l ∷ rest
    → rows_of x (delete_log l.id logs) ≡ rest
unfolding rows_of delete_log
rows_of-delete_log x [] l rest h e = absurd (ground (arith, e))
rows_of-delete_log x (m ∷ logs) l rest h e = elim (Bool-cases (m.execution_id == x)) [
  | inl mine ↦
      let same : m ≡ l = ground (arith, e, mine) in
      let tail : rows_of x logs ≡ rest = ground (arith, e, mine) in
      let gone : delete_log l.id logs ≡ logs = rw (sym same) (delete_log_fresh m.id logs h.0) in
      ground (arith, ==_iff m.id l.id, ap (λ r. r.id) same, gone, tail)
  | inr other ↦ ground (
    arith,
    other,
    e,
    rows_of-delete_log x logs l rest h.1,
    id_of_row m.id x logs l rest h.0,
    ==_iff m.id l.id,
  )
]

pub rows_of-delete_log_other :
    (x y : ℕ) (logs : List LogRow) (l : LogRow) (rest : List LogRow)
    → HasIds logs
    → rows_of x logs ≡ l ∷ rest
    → x == y ≡ false
    → rows_of y (delete_log l.id logs) ≡ rows_of y logs
unfolding rows_of delete_log
rows_of-delete_log_other x y [] l rest h e n = absurd (ground (arith, e))
rows_of-delete_log_other x y (m ∷ logs) l rest h e n = elim (Bool-cases (m.execution_id == x)) [
  | inl mine ↦
      let same : m ≡ l = ground (arith, e, mine) in
      let gone : delete_log l.id logs ≡ logs = rw (sym same) (delete_log_fresh m.id logs h.0) in
      ground (arith, ==_iff m.id l.id, ap (λ r. r.id) same, gone, mine, n, ==_iff m.execution_id x)
  | inr other ↦ ground (
    arith,
    other,
    e,
    rows_of-delete_log_other x y logs l rest h.1,
    id_of_row m.id x logs l rest h.0,
    ==_iff m.id l.id,
    n,
  )
]

pub All-delete_log :
    (P : LogRow → Type 0) (n : ℕ) (logs : List LogRow) → All P logs → All P (delete_log n logs)
unfolding delete_log
All-delete_log P n [] h = tt
All-delete_log P n (m ∷ logs) h = ground (arith, h, All-delete_log P n logs h.1)

pub HasIds-delete_log : (n : ℕ) (logs : List LogRow) → HasIds logs → HasIds (delete_log n logs)
unfolding delete_log
HasIds-delete_log n [] h = tt
HasIds-delete_log n (m ∷ logs) h =
    ground (arith, All-delete_log (λ k. m.id < k.id) n logs h.0, HasIds-delete_log n logs h.1)
