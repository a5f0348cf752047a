-- ===== src/LogStream.antt =====
-- internal/services/logsink.go and internal/services/tailbuffer.go: the output of a run, cut into
-- chunks at the boundaries of UTF-8 runes.
--
-- `to_valid` stands for `strings.ToValidUTF8(text, "\uFFFD")`. The sink is the list of the chunks that
-- it was given. The mutex makes each method one step. A map from streams is a field for each.
pub mod Tail
pub mod Held
pub mod Capture
mod Examples
use webhook_ui.Common.{
  ℕ, zero, suc, ◌+◌, ◌-◌, Bool, true, false, not, ◌&&◌, ◌||◌, List, [], ◌∷◌, ◌++◌, length, take,
  drop, ltb, leb, if◌then◌else◌, Bytes,
}
use webhook_ui.Store.{Stream, stdout, stderr}

-- utf8.RuneStart: not a byte 10xxxxxx.
abbrev pub rune_start : ℕ → Bool
rune_start c = ltb c 0x80 || leb 0xC0 c

-- A limit of 0 or less is no limit, here 0.
pub record TailBuffer : Type 0 where
  pub limit : ℕ
  pub buf : Bytes

-- `for cut < len(t.buf) && !utf8.RuneStart(t.buf[cut]) { cut++ }`
unfoldable pub next_rune : Bytes → Bytes
next_rune [] = []
next_rune (c ∷ s) = let rest = next_rune s in if rune_start c then c ∷ s else rest

unfoldable pub append : Bytes → TailBuffer → TailBuffer
unfolding next_rune
append s t =
    let buf = t.buf ++ s in
    if leb t.limit 0 || leb (length buf) t.limit
    then record t { buf = buf }
    else record t { buf = next_rune (drop (length buf - t.limit) buf) }

unfoldable pub rune_len_for : ℕ → ℕ
rune_len_for lead =
    if ltb lead 0x80
    then 1
    else if leb 0xC0 lead && ltb lead 0xE0
    then 2
    else if leb 0xE0 lead && ltb lead 0xF0
    then 3
    else if leb 0xF0 lead && ltb lead 0xF8
    then 4
    else 1

unfoldable pub last_first : Bytes → Bytes → Bytes
last_first [] seen = seen
last_first (c ∷ s) seen = last_first s (c ∷ seen)

-- The loop of incompleteTailLen, with the bytes from the last one on; `n` rounds are left.
unfoldable pub walk_back : ℕ → ℕ → Bytes → ℕ
unfolding rune_len_for
walk_back zero back rest = 0
walk_back (suc n) back [] = 0
walk_back (suc n) back (lead ∷ rest) =
    let further = walk_back n (back + 1) rest in
    if not (rune_start lead) then further else if ltb back (rune_len_for lead) then back else 0

-- utf8.UTFMax is 4.
unfoldable pub incomplete_tail_len : Bytes → ℕ
unfolding walk_back last_first
incomplete_tail_len b = walk_back 4 1 (last_first b [])

pub record StreamCapture : Type 0 where
  pub sink : List (Stream × Bytes)
  pub stdout : TailBuffer
  pub stderr : TailBuffer
  pub sealed : Bool
  pub pending_stdout : Bytes
  pub pending_stderr : Bytes

abbrev pub new_stream_capture : ℕ → StreamCapture
new_stream_capture tail_bytes = record {
  sink = [];
  stdout = record { limit = tail_bytes; buf = [] };
  stderr = record { limit = tail_bytes; buf = [] };
  sealed = false;
  pending_stdout = [];
  pending_stderr = [];
}

abbrev pub pending : Stream → StreamCapture → Bytes
pending Stream.stdout c = c.pending_stdout
pending Stream.stderr c = c.pending_stderr

abbrev pub keep_pending : Stream → Bytes → StreamCapture → StreamCapture
keep_pending Stream.stdout b c = record c { pending_stdout = b }
keep_pending Stream.stderr b c = record c { pending_stderr = b }

abbrev pub append_to : Stream → Bytes → StreamCapture → StreamCapture
append_to Stream.stdout text c = record c { stdout = append text c.stdout }
append_to Stream.stderr text c = record c { stderr = append text c.stderr }

module _ (to_valid : Bytes → Bytes) where
  unfoldable pub emit : Stream → Bytes → StreamCapture → StreamCapture
  emit stream [] c = c
  emit stream (b ∷ text) c =
      let valid = to_valid (b ∷ text) in
      let c' = append_to stream valid c in record c' { sink = c'.sink ++ (stream, valid) ∷ [] }

  -- The part of write behind its guards.
  unfoldable pub write_open : Stream → Bytes → StreamCapture → StreamCapture
  unfolding emit
  write_open stream chunk c =
      let buf = pending stream c ++ chunk in
      let keep = incomplete_tail_len buf in
      emit stream (take (length buf - keep) buf)
        (keep_pending stream (drop (length buf - keep) buf) c)

  unfoldable pub write : Stream → Bytes → StreamCapture → StreamCapture
  write stream [] c = c
  write stream (b ∷ chunk) c = if c.sealed then c else write_open stream (b ∷ chunk) c

  -- result, for one of the two orders of Go's map: the leftover of `first` goes out first.
  unfoldable pub result : (first second : Stream) → StreamCapture → (Bytes × Bytes) × StreamCapture
  result first second c =
      let c1 = emit first (pending first c) (keep_pending first [] c) in
      let c2 = emit second (pending second c1) (keep_pending second [] c1) in
      ((c2.stdout.buf, c2.stderr.buf), record c2 { sealed = true })
