-- ===== src/Shell/Posix.antt =====
-- A POSIX shell reads back exactly what was escaped.
use webhook_ui.Common.{
  zero, suc, ℕ, ◌≡◌, refl, Bool, true, false, ◌&&◌, ◌||◌, Option, none, some, List, [], ◌∷◌, ◌++◌,
  append_assoc, Bytes, nat_beq, if◌then◌else◌, arith, map_option, ap, leb,
}
use webhook_ui.Shell.{replace_all, shell_escape}

pub data Mode : Type 0 where
  plain quoted escaped : Mode

-- The bytes that a POSIX shell takes as they are, outside of quotes: here those that cannot be
-- anything else, letters, digits and `_ - . / : , + @ % =`.
abbrev pub is_ordinary : ℕ → Bool
is_ordinary c =
    leb b'0' c && leb c b'9'
    || leb b'A' c && leb c b'Z'
    || leb b'a' c && leb c b'z'
    || nat_beq c b'_'
    || nat_beq c b'-'
    || nat_beq c b'.'
    || nat_beq c b'/'
    || nat_beq c b':'
    || nat_beq c b','
    || nat_beq c b'+'
    || nat_beq c b'@'
    || nat_beq c b'%'
    || nat_beq c b'='

abbrev pub prepend : ℕ → Option (Bytes × Bytes) → Option (Bytes × Bytes)
prepend c none = none
prepend c (some (w, rest)) = some (c ∷ w, rest)

-- One word by the quoting rules of POSIX (Shell Command Language, 2.2), with what stands behind
-- it. Between single quotes each byte stands for itself; a backslash outside of them keeps the next
-- byte; a blank ends the word. Anything else outside of quotes would be read by the shell as
-- syntax or expansion: there is no word then. A text holds no NUL, which the reader takes like any
-- other byte.
unfoldable pub read_word : Mode → Bytes → Option (Bytes × Bytes)
read_word plain [] = some ([], [])
read_word quoted [] = none
read_word escaped [] = none
read_word quoted (c ∷ s) =
    let out = read_word plain s in
    let inside = prepend c (read_word quoted s) in if nat_beq c 0x27 then out else inside
read_word escaped (c ∷ s) =
    let rest = prepend c (read_word plain s) in if nat_beq c 0x0A then none else rest
read_word plain (c ∷ s) =
    let quote = read_word quoted s in
    let escape = read_word escaped s in
    let literal = prepend c (read_word plain s) in
    if nat_beq c 0x20
    then some ([], c ∷ s)
    else if nat_beq c 0x27
    then quote
    else if nat_beq c 0x5C
    then escape
    else if is_ordinary c
    then literal
    else none

abbrev pub prepend_all : Bytes → Option (Bytes × Bytes) → Option (Bytes × Bytes)
prepend_all [] r = r
prepend_all (c ∷ s) r = prepend c (prepend_all s r)

quoted-escape :
    (s rest : Bytes)
    → read_word quoted (replace_all 0x27 (0x27 ∷ 0x5C ∷ 0x27 ∷ 0x27 ∷ []) s ++ (0x27 ∷ rest))
      ≡ prepend_all s (read_word plain rest)
unfolding read_word replace_all
quoted-escape [] rest = refl
quoted-escape (c ∷ s) rest = ground (arith, quoted-escape s rest)

-- An escaped value is read back as itself, and the word goes on with what follows.
pub read_word-shell_escape :
    (s rest : Bytes)
    → read_word plain (shell_escape s ++ rest) ≡ prepend_all s (read_word plain rest)
unfolding shell_escape read_word
read_word-shell_escape s rest =
    rw (append_assoc (replace_all 0x27 (0x27 ∷ 0x5C ∷ 0x27 ∷ 0x27 ∷ []) s) (0x27 ∷ []) rest)
      (quoted-escape s rest)

pub prepend_all-some : (s w rest : Bytes) → prepend_all s (some (w, rest)) ≡ some (s ++ w, rest)
prepend_all-some [] w rest = refl
prepend_all-some (c ∷ s) w rest = ap (prepend c) (prepend_all-some s w rest)

abbrev pub all_ordinary : Bytes → Bool
all_ordinary [] = true
all_ordinary (c ∷ s) = is_ordinary c && all_ordinary s

ordinary_byte :
    (c : ℕ)
    → is_ordinary c ≡ true
    → (nat_beq c 0x20 ≡ false) × (nat_beq c 0x27 ≡ false) × (nat_beq c 0x5C ≡ false)
ordinary_byte c h = ground arith

pub and_parts : (a b : Bool) → a && b ≡ true → (a ≡ true) × (b ≡ true)
and_parts a b h = ground arith

pub read_word-ordinary :
    (s rest : Bytes)
    → all_ordinary s ≡ true
    → read_word plain (s ++ rest) ≡ prepend_all s (read_word plain rest)
unfolding read_word
read_word-ordinary [] rest h = refl
read_word-ordinary (c ∷ s) rest h =
    let (a, b) = and_parts (is_ordinary c) (all_ordinary s) h in
    let (p, q, r) = ordinary_byte c a in
    rw (p, q, r, a) (ap (prepend c) (read_word-ordinary s rest b))

-- The words of a text in which a blank stands before each.
unfoldable pub read_words : ℕ → Bytes → Option (List Bytes)
read_words n [] = some []
read_words zero (c ∷ s) = none
read_words (suc n) (c ∷ s) =
    if nat_beq c 0x20
    then elim (read_word plain s) [
      | none ↦ none
      | some (w, rest) ↦ map_option (λ ws. w ∷ ws) (read_words n rest)
    ]
    else none
