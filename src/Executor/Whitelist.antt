-- ===== src/Executor/Whitelist.antt =====
-- What isAllowed of internal/services/executor.go lets through.
use webhook_ui.Common.{
  ◌≡◌, ◌⊎◌, inl, inr, refl, sym, ◌∙◌, true, some, List, [], ◌∷◌, ◌++◌, ◌==◌, ==_iff, ◌↔◌, arith,
  nat_beq_iff, bytes_eq, append_assoc, Bytes, Bool-cases, Option-cases, List-cases, All, ap, false,
  nat_beq, ℕ,
}
use webhook_ui.Executor.{Platform, has_byte, has_prefix, is_listed, base_path, is_allowed}

-- The path is the directory or file itself, or stands below it.
abbrev pub IsWithin : (separator : ℕ) → (allowed path : Bytes) → Type 0
IsWithin separator allowed path =
    (path ≡ allowed) ⊎ ((rest : Bytes) × (path ≡ allowed ++ separator ∷ rest))

abbrev pub IsWithinSome : (separator : ℕ) → List Bytes → Bytes → Type 0
IsWithinSome separator [] path = ⊥
IsWithinSome separator (allowed ∷ rest) path =
    IsWithin separator allowed path ⊎ IsWithinSome separator rest path

has_prefix_split :
    (s prefix : Bytes) → has_prefix s prefix ≡ true → (rest : Bytes) × (s ≡ prefix ++ rest)
unfolding has_prefix
has_prefix_split s [] h = (s, refl)
has_prefix_split [] (p ∷ prefix) h = absurd (ground (arith, h))
has_prefix_split (c ∷ s) (p ∷ prefix) h =
    let (rest, e) = has_prefix_split s prefix (ground (arith, h)) in
    (rest, ground (arith, nat_beq_iff c p, h, e))

has_prefix-append : (prefix rest : Bytes) → has_prefix (prefix ++ rest) prefix ≡ true
unfolding has_prefix
has_prefix-append [] rest = refl
has_prefix-append (p ∷ prefix) rest = ground (arith, has_prefix-append prefix rest, nat_beq_iff p p)

has_prefix_iff :
    (separator : ℕ) (allowed path : Bytes)
    → (has_prefix path (allowed ++ separator ∷ []) ≡ true)
      ↔ ((rest : Bytes) × (path ≡ allowed ++ separator ∷ rest))
has_prefix_iff separator allowed path = (
  λ h.
      let (rest, e) = has_prefix_split path (allowed ++ separator ∷ []) h in
      (rest, e ∙ append_assoc allowed (separator ∷ []) rest),
  λ h.
      let (rest, e) = h in
      rw (e ∙ sym (append_assoc allowed (separator ∷ []) rest))
        (has_prefix-append (allowed ++ separator ∷ []) rest),
)

is_listed_iff :
    (separator : ℕ) (listed : List Bytes) (path : Bytes)
    → (is_listed separator listed path ≡ true) ↔ IsWithinSome separator listed path
unfolding is_listed
is_listed_iff separator [] path = (λ h. absurd (ground (arith, h)), λ h. absurd h)
is_listed_iff separator (allowed ∷ rest) path =
    let (to, from) = is_listed_iff separator rest path in
    let (to', from') = has_prefix_iff separator allowed path in
    let (same, back) = ==_iff path allowed in
    (
      λ h. elim (Bool-cases (path == allowed)) [
        | inl e ↦ inl (inl (same e))
        | inr e ↦ elim (Bool-cases (has_prefix path (allowed ++ separator ∷ []))) [
          | inl e' ↦ inl (inr (to' e'))
          | inr e' ↦ inr (to (ground (arith, h, e, e')))
        ]
      ],
      λ h. elim h [
        | inl (inl e) ↦ ground (arith, back e)
        | inl (inr below) ↦ ground (arith, from' below)
        | inr later ↦ ground (arith, from later)
      ],
    )

abbrev pub IsSlashless : Bytes → Type 0
IsSlashless = All (λ c. nat_beq c b'/' ≡ false)

-- The absolute path that the first word of a command stands for: of a file that the word finds on
-- the search path, or of the word itself, where it has a slash.
pub data IsResolved (p : Platform) (cmd path : Bytes) : Type 0 where
  searched :
      (base : Bytes) (rest : List Bytes) (found : Bytes)
      → p.fields cmd ≡ base ∷ rest
      → IsSlashless base
      → p.look_path base ≡ some found
      → p.abs found ≡ some path
      → IsResolved p cmd path
  given :
      (base : Bytes) (rest : List Bytes) (before after : Bytes)
      → p.fields cmd ≡ base ∷ rest
      → base ≡ before ++ b'/' ∷ after
      → p.abs base ≡ some path
      → IsResolved p cmd path

IsSlashless-has_byte : (s : Bytes) → has_byte b'/' s ≡ false → IsSlashless s
unfolding has_byte
IsSlashless-has_byte [] h = tt
IsSlashless-has_byte (c ∷ s) h = ground (arith, h, IsSlashless-has_byte s)

has_byte-IsSlashless : (s : Bytes) → IsSlashless s → has_byte b'/' s ≡ false
unfolding has_byte
has_byte-IsSlashless [] h = refl
has_byte-IsSlashless (c ∷ s) h = ground (arith, h.0, has_byte-IsSlashless s h.1)

has_byte_split :
    (s : Bytes)
    → has_byte b'/' s ≡ true
    → (before : Bytes) × (after : Bytes) × (s ≡ before ++ b'/' ∷ after)
unfolding has_byte
has_byte_split [] h = absurd (ground (arith, h))
has_byte_split (c ∷ s) h = elim (Bool-cases (nat_beq c b'/')) [
  | inl e ↦ ([], s, ground (arith, e, nat_beq_iff c b'/'))
  | inr e ↦
      let (before, after, split) = has_byte_split s (ground (arith, h, e)) in
      (c ∷ before, after, ap (λ t. c ∷ t) split)
]

has_byte-append : (before after : Bytes) → has_byte b'/' (before ++ b'/' ∷ after) ≡ true
unfolding has_byte
has_byte-append [] after = refl
has_byte-append (c ∷ before) after = ground (arith, has_byte-append before after)

base_path-IsResolved :
    (p : Platform) (cmd : Bytes) {path : Bytes}
    → base_path p cmd ≡ some path
    → IsResolved p cmd path
unfolding base_path
base_path-IsResolved p cmd h = elim (List-cases (p.fields cmd)) [
  | inl e ↦ absurd (ground (arith, h, e))
  | inr (base, rest, e) ↦ elim (Bool-cases (has_byte b'/' base)) [
    | inl k ↦
        let (before, after, split) = has_byte_split base k in
        given base rest before after e split (ground (arith, h, e, k))
    | inr k ↦ elim (Option-cases (p.look_path base)) [
      | inl n ↦ absurd (ground (arith, h, e, k, n))
      | inr (found, n) ↦
          searched base rest found e (IsSlashless-has_byte base k) n (ground (arith, h, e, k, n))
    ]
  ]
]

IsResolved-base_path :
    (p : Platform) (cmd : Bytes) {path : Bytes}
    → IsResolved p cmd path
    → base_path p cmd ≡ some path
unfolding base_path
IsResolved-base_path p cmd (searched base rest found e plain n a) =
    rw (e, base_path) (rw (has_byte-IsSlashless base plain) (rw (n, base_path) a))
IsResolved-base_path p cmd (given base rest before after e split a) =
    let slash : has_byte b'/' base ≡ true = rw split (has_byte-append before after) in
    rw (e, base_path) (rw slash a)

-- A command or interpreter is let through exactly if the absolute path that its first word stands
-- for, looked up where the word has no slash, equals an entry of the whitelist or begins with an
-- entry that the separator follows. (So an entry that itself ends in the separator, such as the root
-- directory, covers nothing below it, where absolute paths have no doubled separator.)
pub is_allowed_iff :
    (p : Platform) (listed : List Bytes) (cmd : Bytes)
    → (is_allowed p listed cmd ≡ true)
      ↔ ((path : Bytes) × IsResolved p cmd path × IsWithinSome p.separator listed path)
unfolding is_allowed
is_allowed_iff p listed cmd = (
  λ h. elim (Option-cases (base_path p cmd)) [
    | inl e ↦ absurd (ground (arith, h, e))
    | inr (path, e) ↦
        let allowed : is_allowed p listed cmd ≡ is_listed p.separator listed path =
          rw (e, is_allowed) refl in
        let (to, from) = is_listed_iff p.separator listed path in
        (path, base_path-IsResolved p cmd e, to (sym allowed ∙ h))
  ],
  λ h.
      let (path, r, within) = h in
      let e = IsResolved-base_path p cmd r in
      let (to, from) = is_listed_iff p.separator listed path in rw (e, is_allowed) (from within),
)
