-- ===== src/LogStream/Capture.antt =====
-- No byte of a stream is lost, reordered or repeated on its way into chunks, wherever the reads
-- cut it.
use mathlib.Core.Path.{subst}
use webhook_ui.Common.{
  ℕ, zero, suc, ◌+◌, ◌-◌, ◌≤◌, ◌≡◌, ◌⊎◌, inl, inr, refl, sym, ap, ◌∙◌, Bool, true, false, List, [],
  ◌∷◌, ◌++◌, append_assoc, append-nil, map, length, take, drop, take-append-drop, length-drop,
  if◌then◌else◌, Bytes, arith, Bool-cases,
}
use webhook_ui.Store.{Stream}
use webhook_ui.LogStream.Held.{cut_rune, held_back}
use webhook_ui.LogStream.{
  rune_len_for, walk_back, last_first, incomplete_tail_len, StreamCapture, pending, keep_pending,
  emit, write_open, write,
}

walk_back-le :
    (n back : ℕ) (rest : Bytes)
    → walk_back n back rest + 1 ≤ back + length rest ⊎ (walk_back n back rest ≡ 0)
unfolding walk_back
walk_back-le zero back rest = inr refl
walk_back-le (suc n) back [] = inr refl
walk_back-le (suc n) back (c ∷ rest) = ground (arith, walk_back-le n (back + 1) rest)

walk_back-short : (n back : ℕ) (rest : Bytes) → walk_back n back rest ≤ 3
unfolding walk_back rune_len_for
walk_back-short zero back rest = omega arith
walk_back-short (suc n) back [] = omega arith
walk_back-short (suc n) back (c ∷ rest) = ground (arith, walk_back-short n (back + 1) rest)

length-last_first : (b seen : Bytes) → length (last_first b seen) ≡ length b + length seen
unfolding last_first
length-last_first [] seen = omega arith
length-last_first (c ∷ b) seen = omega (arith, length-last_first b (c ∷ seen))

-- At most three bytes wait, of those that are there.
tail_fits : (b : Bytes) → (incomplete_tail_len b ≤ length b) × (incomplete_tail_len b ≤ 3)
unfolding incomplete_tail_len
tail_fits b = (
  ground (arith, walk_back-le 4 1 (last_first b []), length-last_first b []),
  walk_back-short 4 1 (last_first b []),
)

abbrev pub same_stream : Stream → Stream → Bool
same_stream Stream.stdout Stream.stdout = true
same_stream Stream.stderr Stream.stderr = true
same_stream _ _ = false

-- What a list of chunks says on one stream.
unfoldable pub text_of : Stream → List (Stream × Bytes) → Bytes
text_of st [] = []
text_of st ((s, b) ∷ rest) =
    let text = text_of st rest in if same_stream s st then b ++ text else text

text_of-append :
    (st : Stream) (xs ys : List (Stream × Bytes))
    → text_of st (xs ++ ys) ≡ text_of st xs ++ text_of st ys
unfolding text_of
text_of-append st [] ys = refl
text_of-append st ((s, b) ∷ xs) ys = elim (Bool-cases (same_stream s st)) [
  | inl e ↦
      rw e (rw (text_of-append st xs ys) (sym (append_assoc b (text_of st xs) (text_of st ys))))
  | inr e ↦ rw e (text_of-append st xs ys)
]

map-append :
    (f : Stream × Bytes → Stream × Bytes) (xs ys : List (Stream × Bytes))
    → map f (xs ++ ys) ≡ map f xs ++ map f ys
map-append f [] ys = refl
map-append f (x ∷ xs) ys = ap (λ t. f x ∷ t) (map-append f xs ys)

-- The chunk that a text is sent as, if it is not empty.
abbrev pub piece : Stream → Bytes → List (Stream × Bytes)
piece s [] = []
piece s (b ∷ text) = (s, b ∷ text) ∷ []

text_of-piece :
    (st s : Stream) (out : Bytes)
    → text_of st (piece s out) ≡ (if same_stream s st then out else [])
unfolding text_of
text_of-piece st s [] = ground arith
text_of-piece st s (b ∷ out) = rw (append-nil (b ∷ out)) refl

text_of-one :
    (st s : Stream) (chunk : Bytes)
    → text_of st ((s, chunk) ∷ []) ≡ (if same_stream s st then chunk else [])
unfolding text_of
text_of-one st s chunk = rw (append-nil chunk) refl

kept_text :
    (s st : Stream) (out kept chunk : Bytes) (c : StreamCapture)
    → out ++ kept ≡ pending s c ++ chunk
    → (if same_stream s st then out else []) ++ pending st (keep_pending s kept c)
      ≡ pending st c ++ (if same_stream s st then chunk else [])
kept_text Stream.stdout Stream.stdout out kept chunk c e = e
kept_text Stream.stderr Stream.stderr out kept chunk c e = e
kept_text Stream.stdout Stream.stderr out kept chunk c e = sym (append-nil c.pending_stderr)
kept_text Stream.stderr Stream.stdout out kept chunk c e = sym (append-nil c.pending_stdout)

kept_short :
    (s st : Stream) (kept : Bytes) (c : StreamCapture)
    → length kept ≤ 3
    → length (pending st c) ≤ 3
    → length (pending st (keep_pending s kept c)) ≤ 3
kept_short Stream.stdout Stream.stdout kept c le h = le
kept_short Stream.stderr Stream.stderr kept c le h = le
kept_short Stream.stdout Stream.stderr kept c le h = h
kept_short Stream.stderr Stream.stdout kept c le h = h

-- What waits after a read: the rune that is cut at its end.
abbrev pub cut_off : Bytes → Bytes → Bytes
cut_off before [] = before
cut_off before (b ∷ chunk) = cut_rune (before ++ b ∷ chunk)

-- What waits on a stream after the reads.
unfoldable pub left_waiting : Stream → Bytes → List (Stream × Bytes) → Bytes
left_waiting st before [] = before
left_waiting st before ((s, chunk) ∷ rest) =
    left_waiting st (if same_stream s st then cut_off before chunk else before) rest

left_waiting-step :
    (st : Stream) (before : Bytes) (s : Stream) (chunk : Bytes) (rest : List (Stream × Bytes))
    → left_waiting st (left_waiting st before ((s, chunk) ∷ [])) rest
      ≡ left_waiting st before ((s, chunk) ∷ rest)
unfolding left_waiting
left_waiting-step st before s chunk rest = refl

kept_waiting :
    (s st : Stream) (kept : Bytes) (c : StreamCapture)
    → pending st (keep_pending s kept c) ≡ (if same_stream s st then kept else pending st c)
kept_waiting Stream.stdout Stream.stdout kept c = refl
kept_waiting Stream.stderr Stream.stderr kept c = refl
kept_waiting Stream.stdout Stream.stderr kept c = refl
kept_waiting Stream.stderr Stream.stdout kept c = refl

same_waiting :
    (s st : Stream) (b : ℕ) (chunk : Bytes) (c : StreamCapture)
    → (if same_stream s st then cut_rune (pending s c ++ b ∷ chunk) else pending st c)
      ≡ left_waiting st (pending st c) ((s, b ∷ chunk) ∷ [])
unfolding left_waiting
same_waiting Stream.stdout Stream.stdout b chunk c = refl
same_waiting Stream.stderr Stream.stderr b chunk c = refl
same_waiting Stream.stdout Stream.stderr b chunk c = refl
same_waiting Stream.stderr Stream.stdout b chunk c = refl

module _ (to_valid : Bytes → Bytes) where
  -- The sink after `pieces` of the raw output went out.
  abbrev pub sent : List (Stream × Bytes) → List (Stream × Bytes)
  sent pieces = map (λ p. (p.0, to_valid p.1)) pieces

  unfoldable pub write_all : List (Stream × Bytes) → StreamCapture → StreamCapture
  write_all [] c = c
  write_all ((s, b) ∷ rest) c = write_all rest (write to_valid s b c)

  -- The raw pieces that left for the sink, and what still waits.
  pub record IsConserved (chunks : List (Stream × Bytes)) (c c' : StreamCapture) : Type 0 where
    pub pieces : List (Stream × Bytes)
    pub sink : c'.sink ≡ c.sink ++ sent pieces
    pub text :
        (st : Stream) → text_of st pieces ++ pending st c' ≡ pending st c ++ text_of st chunks
    pub waits : (st : Stream) → pending st c' ≡ left_waiting st (pending st c) chunks
    pub short : (st : Stream) → length (pending st c) ≤ 3 → length (pending st c') ≤ 3
    pub open_ : c'.sealed ≡ c.sealed

  emit_fields :
      (s : Stream) (out : Bytes) (c : StreamCapture)
      → ((emit to_valid s out c).sink ≡ c.sink ++ sent (piece s out))
        × ((st : Stream) → pending st (emit to_valid s out c) ≡ pending st c)
        × ((emit to_valid s out c).sealed ≡ c.sealed)
  unfolding emit
  emit_fields s [] c = (sym (append-nil c.sink), λ st. refl, refl)
  emit_fields Stream.stdout (b ∷ out) c = (refl, same_out, refl)
    where
      same_out : (st : Stream) → pending st (emit to_valid Stream.stdout (b ∷ out) c) ≡ pending st c
      same_out Stream.stdout = refl
      same_out Stream.stderr = refl
  emit_fields Stream.stderr (b ∷ out) c = (refl, same_err, refl)
    where
      same_err : (st : Stream) → pending st (emit to_valid Stream.stderr (b ∷ out) c) ≡ pending st c
      same_err Stream.stdout = refl
      same_err Stream.stderr = refl

  keep_fields :
      (s : Stream) (kept : Bytes) (c : StreamCapture)
      → ((keep_pending s kept c).sink ≡ c.sink) × ((keep_pending s kept c).sealed ≡ c.sealed)
  keep_fields Stream.stdout kept c = (refl, refl)
  keep_fields Stream.stderr kept c = (refl, refl)

  emit-IsConserved :
      (s : Stream) (out kept : Bytes) (b : ℕ) (chunk : Bytes) (c : StreamCapture)
      → out ++ kept ≡ pending s c ++ b ∷ chunk
      → kept ≡ cut_rune (pending s c ++ b ∷ chunk)
      → length kept ≤ 3
      → IsConserved ((s, b ∷ chunk) ∷ []) c (emit to_valid s out (keep_pending s kept c))
  emit-IsConserved s out kept b chunk c e cut le =
      let (sink', waits, open') = emit_fields s out (keep_pending s kept c) in
      let (same_sink, same_seal) = keep_fields s kept c in
      record {
        pieces = piece s out;
        sink = sink' ∙ ap (λ t. t ++ sent (piece s out)) same_sink;
        text = λ st.
            rw (waits st, text_of-piece st s out, text_of-one st s (b ∷ chunk))
              (kept_text s st out kept (b ∷ chunk) c e);
        waits = λ st.
            waits st
            ∙ kept_waiting s st kept c
            ∙ ap (λ k. if same_stream s st then k else pending st c) cut
            ∙ same_waiting s st b chunk c;
        short = λ st h. rw (waits st) (kept_short s st kept c le h);
        open_ = open' ∙ same_seal;
      }

  write_open-IsConserved :
      (s : Stream) (b : ℕ) (chunk : Bytes) (c : StreamCapture)
      → IsConserved ((s, b ∷ chunk) ∷ []) c (write_open to_valid s (b ∷ chunk) c)
  unfolding write_open
  write_open-IsConserved s b chunk c =
      let buf : Bytes = pending s c ++ b ∷ chunk in
      let keep : ℕ = incomplete_tail_len buf in
      let (fits, le) = tail_fits buf in
      emit-IsConserved s (take (length buf - keep) buf) (drop (length buf - keep) buf) b chunk c
        (take-append-drop (length buf - keep) buf) (held_back buf)
        (omega (arith, length-drop (length buf - keep) buf, fits, le))

  write-IsConserved :
      (s : Stream) (chunk : Bytes) (c : StreamCapture)
      → c.sealed ≡ false
      → IsConserved ((s, chunk) ∷ []) c (write to_valid s chunk c)
  unfolding write text_of
  write-IsConserved s [] c live = record {
    pieces = [];
    sink = sym (append-nil c.sink);
    text = λ st. rw (text_of-one st s []) (nothing_more st);
    waits = λ st. unfold left_waiting in ground arith;
    short = λ st h. h;
    open_ = refl;
  }
    where
      nothing_more :
          (st : Stream) → pending st c ≡ pending st c ++ (if same_stream s st then [] else [])
      nothing_more st = ground (arith, append-nil (pending st c))
  write-IsConserved s (b ∷ chunk) c live =
      subst (IsConserved ((s, b ∷ chunk) ∷ []) c)
        (sym (ap (λ closed. if closed then c else write_open to_valid s (b ∷ chunk) c) live))
        (write_open-IsConserved s b chunk c)

  -- For a capture that is not sealed, however the output of the two streams is cut into reads and
  -- interleaved, and whatever `ToValidUTF8` makes of a piece: the sink receives the pieces in order;
  -- on each stream the pieces and what still waits are, byte for byte, what waited before and then
  -- was read; what waits after a read that is not empty is exactly the rune that is cut at the end of
  -- what is there, and the other stream's reads and empty ones leave it; and where at most three bytes
  -- waited before, at most three wait.
  pub write_all-IsConserved :
      (chunks : List (Stream × Bytes)) (c : StreamCapture)
      → c.sealed ≡ false
      → IsConserved chunks c (write_all chunks c)
  unfolding write_all text_of
  write_all-IsConserved [] c live = record {
    pieces = [];
    sink = sym (append-nil c.sink);
    text = λ st. sym (append-nil (pending st c));
    waits = λ st. unfold left_waiting in refl;
    short = λ st h. h;
    open_ = refl;
  }
  write_all-IsConserved ((s, b) ∷ rest) c live =
      let one = write-IsConserved s b c live in
      let more = write_all-IsConserved rest (write to_valid s b c) (one.open_ ∙ live) in
      record {
        pieces = one.pieces ++ more.pieces;
        sink =
            more.sink
            ∙ ap (λ t. t ++ sent more.pieces) one.sink
            ∙ append_assoc c.sink (sent one.pieces) (sent more.pieces)
            ∙ ap (λ t. c.sink ++ t)
                (sym (map-append (λ p. (p.0, to_valid p.1)) one.pieces more.pieces));
        text = λ st.
            ap (λ t. t ++ pending st (write_all rest (write to_valid s b c)))
              (text_of-append st one.pieces more.pieces)
            ∙ append_assoc (text_of st one.pieces) (text_of st more.pieces)
                (pending st (write_all rest (write to_valid s b c)))
            ∙ ap (λ t. text_of st one.pieces ++ t) (more.text st)
            ∙ sym (
                append_assoc (text_of st one.pieces) (pending st (write to_valid s b c))
                  (text_of st rest))
            ∙ ap (λ t. t ++ text_of st rest) (one.text st)
            ∙ append_assoc (pending st c) (text_of st ((s, b) ∷ [])) (text_of st rest)
            ∙ ap (λ t. pending st c ++ t) (sym (text_of-append st ((s, b) ∷ []) rest));
        waits = λ st.
            more.waits st
            ∙ ap (λ w. left_waiting st w rest) (one.waits st)
            ∙ left_waiting-step st (pending st c) s b rest;
        short = λ st h. more.short st (one.short st h);
        open_ = more.open_ ∙ one.open_;
      }
