-- ===== src/Shell/Windows.antt =====
-- The escapes for Windows targets: PowerShell's single quotes, and cmd.exe's double quotes.
use webhook_ui.Common.{
  zero, ◌≤◌, length, ℕ, suc, ◌≡◌, refl, ap, ◌∙◌, ◌↔◌, ◌⊎◌, inl, inr, Bool, true, false, not, ◌&&◌,
  ◌||◌, Option, none, some, List, [], ◌∷◌, ◌++◌, append_assoc, Bytes, nat_beq, if◌then◌else◌, arith,
  map_option, Bool-cases,
}
use webhook_ui.Shell.{replace_all, ps_escape, ps_args, needs_cmd_escape, cmd_quote, cmd_args}

abbrev pub prepend : ℕ → Option (Bytes × Bytes) → Option (Bytes × Bytes)
prepend c none = none
prepend c (some (w, rest)) = some (c ∷ w, rest)

-- The inside of a PowerShell single-quoted string (about_Quoting_Rules): two quotes stand for
-- one, and one that no other follows ends the string. `true` means that a quote was just read.
-- PowerShell takes the typographic single quotes U+2018 to U+201B for quotes as well: the reader
-- gives no answer on 0xE2, the byte that they start with in UTF-8.
unfoldable pub read_ps : Bool → Bytes → Option (Bytes × Bytes)
read_ps true [] = some ([], [])
read_ps false [] = none
read_ps true (c ∷ s) =
    let literal = prepend 0x27 (read_ps false s) in
    if nat_beq c 0x27 then literal else if nat_beq c 0xE2 then none else some ([], c ∷ s)
read_ps false (c ∷ s) =
    let quote = read_ps true s in
    let literal = prepend c (read_ps false s) in
    if nat_beq c 0x27 then quote else if nat_beq c 0xE2 then none else literal

-- No byte that a typographic quote starts with.
unfoldable pub no_typographic : Bytes → Bool
no_typographic [] = true
no_typographic (c ∷ s) = not (nat_beq c 0xE2) && no_typographic s

unfoldable pub all_plain : List Bytes → Bool
unfolding no_typographic
all_plain [] = true
all_plain (a ∷ args) = no_typographic a && all_plain args

-- Text that does not go on with another quote.
abbrev pub starts_plain : Bytes → Bool
starts_plain [] = true
starts_plain (c ∷ s) = not (nat_beq c 0x27) && not (nat_beq c 0xE2)

read_ps-body :
    (s rest : Bytes)
    → no_typographic s ≡ true
    → starts_plain rest ≡ true
    → read_ps false (replace_all 0x27 (0x27 ∷ 0x27 ∷ []) s ++ (0x27 ∷ rest)) ≡ some (s, rest)
unfolding read_ps replace_all no_typographic
read_ps-body [] [] n h = refl
read_ps-body [] (c ∷ rest) n h = ground arith
read_ps-body (c ∷ s) rest n h = elim (Bool-cases (nat_beq c 0x27)) [
  | inl q ↦
      rw (q, read_ps-body s rest (ground arith) h)
        (let same : c ≡ 0x27 = ground arith in rw same refl)
  | inr q ↦
      let t : nat_beq c 0xE2 ≡ false = ground arith in
      rw (q, read_ps) (rw (q, t, read_ps-body s rest (ground arith) h) refl)
]

-- A string literal of PowerShell: an opening quote and the inside.
abbrev pub read_ps_string : Bytes → Option (Bytes × Bytes)
read_ps_string [] = none
read_ps_string (c ∷ s) = if nat_beq c 0x27 then read_ps false s else none

pub read_ps_string-ps_escape :
    (s rest : Bytes)
    → no_typographic s ≡ true
    → starts_plain rest ≡ true
    → read_ps_string (ps_escape s ++ rest) ≡ some (s, rest)
unfolding ps_escape
read_ps_string-ps_escape s rest n h =
    ap (read_ps false) (append_assoc (replace_all 0x27 (0x27 ∷ 0x27 ∷ []) s) (0x27 ∷ []) rest)
    ∙ read_ps-body s rest n h

-- The elements of an array literal up to its closing parenthesis: strings, with a comma and a
-- blank between them.
unfoldable pub read_ps_array : ℕ → Bool → Bytes → Option (List Bytes)
read_ps_array n first [] = none
read_ps_array zero first (c ∷ s) = if nat_beq c 0x29 then some [] else none
read_ps_array (suc n) true (c ∷ s) =
    if nat_beq c 0x29 then some [] else elim (read_ps_string (c ∷ s)) [
      | none ↦ none
      | some (w, rest) ↦ map_option (λ ws. w ∷ ws) (read_ps_array n false rest)
    ]
read_ps_array (suc n) false (c ∷ []) = if nat_beq c 0x29 then some [] else none
read_ps_array (suc n) false (c ∷ d ∷ s) =
    if nat_beq c 0x29
    then some []
    else if nat_beq c 0x2C && nat_beq d 0x20
    then elim (read_ps_string s) [
      | none ↦ none
      | some (w, rest) ↦ map_option (λ ws. w ∷ ws) (read_ps_array n false rest)
    ]
    else none

-- A value that cmd.exe reads between double quotes: it has no quote, no variable, no line end.
pub cmd_quote_lem :
    (s q : Bytes)
    → (cmd_quote s ≡ some q) ↔ ((needs_cmd_escape s ≡ false) × (q ≡ 0x22 ∷ (s ++ 0x22 ∷ [])))
unfolding cmd_quote
cmd_quote_lem s q = ground arith

-- The inside of a double-quoted string of cmd.exe, up to the next quote; `%` and line ends would
-- be expanded or end the command.
unfoldable pub read_cmd : Bytes → Option (Bytes × Bytes)
read_cmd [] = none
read_cmd (c ∷ s) =
    let rest = read_cmd s in
    if nat_beq c 0x22
    then some ([], s)
    else if nat_beq c 0x25 || nat_beq c 0x0D || nat_beq c 0x0A
    then none
    else prepend c rest

-- A value that `cmdQuote` accepts is read back as itself; the others are exactly those that hold a
-- double quote, a percent sign or a line end.
pub read_cmd-quoted :
    (s rest : Bytes) → needs_cmd_escape s ≡ false → read_cmd (s ++ (0x22 ∷ rest)) ≡ some (s, rest)
unfolding read_cmd needs_cmd_escape
read_cmd-quoted [] rest h = refl
read_cmd-quoted (c ∷ s) rest h = ground (arith, read_cmd-quoted s rest)

ps_args-plain :
    (args : List Bytes) (rest : Bytes)
    → starts_plain rest ≡ true
    → starts_plain (ps_args false args ++ rest) ≡ true
unfolding ps_args
ps_args-plain [] rest h = h
ps_args-plain (a ∷ args) rest h = refl

abbrev next : ℕ → Option (Bytes × Bytes) → Option (List Bytes)
next n none = none
next n (some (w, rest)) = map_option (λ ws. w ∷ ws) (read_ps_array n false rest)

ps_tail :
    (n : ℕ) (args : List Bytes) (rest : Bytes)
    → length args ≤ n
    → all_plain args ≡ true
    → read_ps_array n false (ps_args false args ++ (0x29 ∷ rest)) ≡ some args
unfolding all_plain ps_args read_ps_array
ps_tail zero [] rest h p = refl
ps_tail (suc n) [] [] h p = refl
ps_tail (suc n) [] (c ∷ rest) h p = refl
ps_tail zero (a ∷ args) rest h p = absurd (omega arith)
ps_tail (suc n) (a ∷ args) rest h p =
    let tail : Bytes = ps_args false args ++ (0x29 ∷ rest) in
    ap (next n) (
      ap read_ps_string (append_assoc (ps_escape a) (ps_args false args) (0x29 ∷ rest))
      ∙ read_ps_string-ps_escape a tail (ground arith) (ps_args-plain args (0x29 ∷ rest) refl))
    ∙ ap (map_option (λ ws. a ∷ ws)) (ps_tail n args rest (omega arith) (ground arith))

-- The `$args` of a script on a Windows target are read back as the arguments, each exactly as
-- given, whatever bytes they hold, except the one that typographic quotes start with.
pub read_ps_array-ps_args :
    (n : ℕ) (args : List Bytes) (rest : Bytes)
    → length args ≤ n
    → all_plain args ≡ true
    → read_ps_array n true (ps_args true args ++ (0x29 ∷ rest)) ≡ some args
unfolding all_plain ps_args read_ps_array
read_ps_array-ps_args zero [] rest h p = refl
read_ps_array-ps_args (suc n) [] rest h p = refl
read_ps_array-ps_args zero (a ∷ args) rest h p = absurd (omega arith)
read_ps_array-ps_args (suc n) (a ∷ args) rest h p =
    let tail : Bytes = ps_args false args ++ (0x29 ∷ rest) in
    ap (next n) (
      ap read_ps_string (append_assoc (ps_escape a) (ps_args false args) (0x29 ∷ rest))
      ∙ read_ps_string-ps_escape a tail (ground arith) (ps_args-plain args (0x29 ∷ rest) refl))
    ∙ ap (map_option (λ ws. a ∷ ws)) (ps_tail n args rest (omega arith) (ground arith))

-- The stretches of a text that cmd.exe takes as quoted, where each follows a blank and nothing else
-- stands between them.
unfoldable pub quoted_stretches : ℕ → Bytes → Option (List Bytes)
quoted_stretches n [] = some []
quoted_stretches zero (c ∷ s) = none
quoted_stretches (suc n) (c ∷ []) = none
quoted_stretches (suc n) (c ∷ d ∷ s) =
    if nat_beq c 0x20 && nat_beq d 0x22
    then elim (read_cmd s) [
      | none ↦ none
      | some (w, rest) ↦ map_option (λ ws. w ∷ ws) (quoted_stretches n rest)
    ]
    else none

-- The bytes that act also between double quotes: the quote itself, the percent sign and line ends.
unfoldable pub acts_quoted : ℕ → Bool
acts_quoted c = nat_beq c b'"' || nat_beq c b'%' || nat_beq c 0x0D || nat_beq c 0x0A

abbrev pub holds_acting : Bytes → Bool
holds_acting [] = false
holds_acting (c ∷ s) = acts_quoted c || holds_acting s

abbrev pub any_acting : List Bytes → Bool
any_acting [] = false
any_acting (a ∷ args) = holds_acting a || any_acting args

-- The bytes that act outside of quotes: & | < > ^ ( )
unfoldable pub is_operator : ℕ → Bool
is_operator c =
    nat_beq c b'&'
    || nat_beq c b'|'
    || nat_beq c b'<'
    || nat_beq c b'>'
    || nat_beq c b'^'
    || nat_beq c b'('
    || nat_beq c b')'

-- How cmd.exe scans a line: each double quote opens or closes a quoted stretch. The text does
-- nothing but stand there if no byte acts where it stands and no stretch is left open.
unfoldable pub is_inert : (quoted : Bool) → Bytes → Bool
is_inert quoted [] = not quoted
is_inert quoted (c ∷ s) =
    let rest = is_inert quoted s in
    let turned = is_inert (not quoted) s in
    if nat_beq c b'"'
    then turned
    else if acts_quoted c
    then false
    else if not quoted && is_operator c
    then false
    else rest

needs_cmd_escape_lem : (s : Bytes) → needs_cmd_escape s ≡ holds_acting s
unfolding needs_cmd_escape acts_quoted
needs_cmd_escape_lem [] = refl
needs_cmd_escape_lem (c ∷ s) = ground (arith, needs_cmd_escape_lem s)

inert_inside :
    (s rest : Bytes)
    → holds_acting s ≡ false
    → is_inert true (s ++ (b'"' ∷ rest)) ≡ is_inert false rest
unfolding is_inert acts_quoted
inert_inside [] rest h = refl
inert_inside (c ∷ s) rest h = ground (arith, inert_inside s rest)

inert_next :
    (a t : Bytes)
    → holds_acting a ≡ false
    → is_inert false t ≡ true
    → is_inert false (0x20 ∷ (0x22 ∷ (a ++ 0x22 ∷ [])) ++ t) ≡ true
unfolding is_inert acts_quoted is_operator
inert_next a t good back =
    ap (is_inert true) (append_assoc a (0x22 ∷ []) t) ∙ inert_inside a t good ∙ back

abbrev next_cmd : ℕ → Option (Bytes × Bytes) → Option (List Bytes)
next_cmd n none = none
next_cmd n (some (w, rest)) = map_option (λ ws. w ∷ ws) (quoted_stretches n rest)

cmd_next :
    (n : ℕ) (a t : Bytes) (args : List Bytes)
    → needs_cmd_escape a ≡ false
    → quoted_stretches n t ≡ some args
    → quoted_stretches (suc n) (0x20 ∷ (0x22 ∷ (a ++ 0x22 ∷ [])) ++ t) ≡ some (a ∷ args)
unfolding quoted_stretches
cmd_next n a t args good back =
    ap (next_cmd n) (ap read_cmd (append_assoc a (0x22 ∷ []) t) ∙ read_cmd-quoted a t good)
    ∙ ap (map_option (λ ws. a ∷ ws)) back

-- The arguments of a command on a Windows target are refused exactly if one holds a double quote,
-- a percent sign or a line end. Otherwise, where cmd.exe scans the text outside of quotes, no byte of
-- it acts, it leaves no quote open, and the stretches that it takes as quoted are the arguments, one by
-- one as given. (How a program then splits its command line is not stated.)
pub cmd_args_lem :
    (n : ℕ) (args : List Bytes)
    → length args ≤ n
    → ((any_acting args ≡ true) × (cmd_args args ≡ none))
      ⊎ ((t : Bytes) × (any_acting args ≡ false)
          × (cmd_args args ≡ some t)
          × (is_inert false t ≡ true)
          × (quoted_stretches n t ≡ some args))
unfolding cmd_args cmd_quote
cmd_args_lem n [] h = inr ([], refl, refl, unfold is_inert in refl, unfold quoted_stretches in refl)
cmd_args_lem zero (a ∷ args) h = absurd (omega arith)
cmd_args_lem (suc n) (a ∷ args) h = elim (Bool-cases (holds_acting a)) [
  | inl bad ↦ inl (ground (arith, bad), ground (arith, bad, needs_cmd_escape_lem a))
  | inr good ↦
      let plain_ : needs_cmd_escape a ≡ false = needs_cmd_escape_lem a ∙ good in
      elim (cmd_args_lem n args (omega arith)) [
        | inl (bad, e) ↦ inl (ground arith, ground arith)
        | inr (t, fine, e, inert, back) ↦ inr (
          0x20 ∷ (0x22 ∷ (a ++ 0x22 ∷ [])) ++ t,
          ground arith,
          ground arith,
          inert_next a t good inert,
          cmd_next n a t args plain_ back,
        )
      ]
]
