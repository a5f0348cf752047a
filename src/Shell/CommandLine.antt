-- ===== src/Shell/CommandLine.antt =====
-- The remote command line reads back as its variables, its interpreter and its arguments.
use webhook_ui.Common.{
  ◌≢◌, ℕ, zero, suc, ◌+◌, ◌≤◌, ◌≡◌, refl, ap, sym, ◌∙◌, Bool, true, false, Option, none, some, List,
  [], ◌∷◌, ◌++◌, append_assoc, append-nil, map, Bytes, bytes, nat_beq, ◌==◌, bytes_eq, nat_eq,
  if◌then◌else◌, arith, map_option, length, All, Bool-cases, inl, inr,
}
use webhook_ui.Shell.{
  shell_escape, escaped_args, Env, assignments, is_env_key, all_word, sorted_env, insert_key,
  env_prefix, cd_prefix, ssh_script_command,
}
use webhook_ui.Shell.Variables.{
  IsArranged, HasSortedKeys, sorted_env-IsArranged, sorted_env-HasSortedKeys,
}
use webhook_ui.Shell.Posix.{
  plain, prepend, prepend_all, prepend_all-some, read_word, read_word-shell_escape,
  read_word-ordinary, all_ordinary, read_words,
}

-- Nothing, or a blank.
abbrev pub starts_blank : Bytes → Bool
starts_blank [] = true
starts_blank (c ∷ s) = nat_beq c 0x20

word_ends : (s : Bytes) → starts_blank s ≡ true → read_word plain s ≡ some ([], s)
unfolding read_word
word_ends [] h = refl
word_ends (c ∷ s) h = rw h

-- A word that is read as `w` and then ends.
next_word :
    (n : ℕ) (s w rest : Bytes)
    → read_word plain s ≡ some (w, rest)
    → read_words (suc n) (0x20 ∷ s) ≡ map_option (λ ws. w ∷ ws) (read_words n rest)
unfolding read_words
next_word n s w rest h = rw (h, read_words)

escaped_args-blank : (args : List Bytes) → starts_blank (escaped_args args) ≡ true
unfolding escaped_args
escaped_args-blank [] = refl
escaped_args-blank (a ∷ args) = refl

escaped_word :
    (a rest : Bytes)
    → starts_blank rest ≡ true
    → read_word plain (shell_escape a ++ rest) ≡ some (a, rest)
escaped_word a rest h =
    rw (read_word-shell_escape a rest, word_ends rest h, prepend_all-some a [] rest, append-nil a)

-- The escaped arguments of a command are the words that the shell passes to it, whatever bytes
-- they hold.
pub read_words-escaped_args :
    (n : ℕ) (args : List Bytes) → length args ≤ n → read_words n (escaped_args args) ≡ some args
unfolding escaped_args read_words
read_words-escaped_args n [] h = refl
read_words-escaped_args zero (a ∷ args) h = absurd (omega arith)
read_words-escaped_args (suc n) (a ∷ args) h =
    next_word n (shell_escape a ++ escaped_args args) a (escaped_args args)
      (escaped_word a (escaped_args args) (escaped_args-blank args))
    ∙ ap (map_option (λ ws. a ∷ ws)) (read_words-escaped_args n args (omega arith))

-- A variable's assignment as the shell sees it.
abbrev pub assignment : Bytes × Bytes → Bytes
assignment kv = kv.0 ++ 0x3D ∷ kv.1

all_word-ordinary : (k : Bytes) → all_word k ≡ true → all_ordinary k ≡ true
unfolding all_word
all_word-ordinary [] h = refl
all_word-ordinary (c ∷ k) h = ground (arith, all_word-ordinary k)

is_env_key-ordinary : (k : Bytes) → is_env_key k ≡ true → all_ordinary k ≡ true
unfolding is_env_key
is_env_key-ordinary [] h = cc
is_env_key-ordinary (c ∷ k) h = ground (arith, all_word-ordinary k)

assignment_word :
    (k v rest : Bytes)
    → is_env_key k ≡ true
    → starts_blank rest ≡ true
    → read_word plain (k ++ (0x3D ∷ (shell_escape v ++ rest))) ≡ some (k ++ 0x3D ∷ v, rest)
assignment_word k v rest h b =
    read_word-ordinary k (0x3D ∷ (shell_escape v ++ rest)) (is_env_key-ordinary k h)
    ∙ ap (prepend_all k) (
        read_word-ordinary (0x3D ∷ []) (shell_escape v ++ rest) refl
        ∙ ap (prepend 0x3D) (escaped_word v rest b))
    ∙ prepend_all-some k (0x3D ∷ v) rest

-- Every key is a shell identifier.
abbrev pub HasEnvKeys : Env → Type 0
HasEnvKeys env = All (λ kv. is_env_key kv.0 ≡ true) env

insert_key-HasEnvKeys :
    (k v : Bytes) (env : Env)
    → is_env_key k ≡ true
    → HasEnvKeys env
    → HasEnvKeys (insert_key (k, v) env)
unfolding insert_key
insert_key-HasEnvKeys k v [] h hs = (h, tt)
insert_key-HasEnvKeys k v ((j, w) ∷ env) h hs = ground (arith, insert_key-HasEnvKeys k v env h hs.1)

-- Only such keys reach the command line.
pub sorted_env-HasEnvKeys : (env : Env) → HasEnvKeys (sorted_env env)
unfolding sorted_env
sorted_env-HasEnvKeys [] = tt
sorted_env-HasEnvKeys ((k, v) ∷ env) = elim (Bool-cases (is_env_key k)) [
  | inl h ↦ rw h (insert_key-HasEnvKeys k v (sorted_env env) h (sorted_env-HasEnvKeys env))
  | inr h ↦ rw h (sorted_env-HasEnvKeys env)
]

abbrev pub append_words : List Bytes → Option (List Bytes) → Option (List Bytes)
append_words ws none = none
append_words ws (some more) = some (ws ++ more)

append_words-nil : (r : Option (List Bytes)) → append_words [] r ≡ r
append_words-nil none = refl
append_words-nil (some r) = refl

append_words-cons :
    (w : Bytes) (ws : List Bytes) (r : Option (List Bytes))
    → map_option (λ more. w ∷ more) (append_words ws r) ≡ append_words (w ∷ ws) r
append_words-cons w ws none = refl
append_words-cons w ws (some r) = refl

assignment_words :
    (m n : ℕ) (env : Env) (tail : Bytes)
    → HasEnvKeys env
    → m ≡ length env + n
    → read_words m (0x20 ∷ (assignments env ++ tail))
      ≡ append_words (map assignment env) (read_words n (0x20 ∷ tail))
unfolding assignments
assignment_words m n [] tail h e =
    let same : m ≡ n = omega arith in rw same (sym (append_words-nil _))
assignment_words zero n ((k, v) ∷ env) tail h e = absurd (omega arith)
assignment_words (suc m) n ((k, v) ∷ env) tail h e =
    let rest : Bytes = 0x20 ∷ (assignments env ++ tail) in
    ap (λ t. read_words (suc m) (0x20 ∷ t))
      (append_assoc k (0x3D ∷ (shell_escape v ++ (0x20 ∷ assignments env))) tail
        ∙ ap (λ t. k ++ (0x3D ∷ t)) (append_assoc (shell_escape v) (0x20 ∷ assignments env) tail))
    ∙ next_word m (k ++ (0x3D ∷ (shell_escape v ++ rest))) (k ++ 0x3D ∷ v) rest
        (assignment_word k v rest h.0 refl)
    ∙ ap (map_option (λ more. (k ++ 0x3D ∷ v) ∷ more))
        (assignment_words m n env tail h.1 (omega arith))
    ∙ append_words-cons (k ++ 0x3D ∷ v) (map assignment env) (read_words n (0x20 ∷ tail))

-- The words that the interpreter's call starts with.
abbrev pub interpreter_flags : Bool → List Bytes
interpreter_flags true = bytes "-" ∷ []
interpreter_flags false = bytes "-s" ∷ bytes "--" ∷ []

-- A word of ordinary bytes.
ordinary_next :
    (n : ℕ) (w rest : Bytes)
    → all_ordinary w ≡ true
    → starts_blank rest ≡ true
    → read_words (suc n) (0x20 ∷ (w ++ rest)) ≡ map_option (λ ws. w ∷ ws) (read_words n rest)
ordinary_next n w rest h b = next_word n (w ++ rest) w rest (
    read_word-ordinary w rest h
    ∙ ap (prepend_all w) (word_ends rest b)
    ∙ prepend_all-some w [] rest
    ∙ ap (λ t. some (t, rest)) (append-nil w))

flag_words :
    (is_python : Bool) (n : ℕ) (interpreter : Bytes) (args : List Bytes)
    → all_ordinary interpreter ≡ true
    → length args ≤ n
    → read_words (suc (suc (suc n))) (
        0x20
        ∷ (interpreter
            ++ ((if is_python then bytes " -" else bytes " -s --") ++ escaped_args args)))
      ≡ some (interpreter ∷ (interpreter_flags is_python ++ args))
unfolding bytes
flag_words true n interpreter args h le =
    let tail : Bytes = escaped_args args in
    ordinary_next (suc (suc n)) interpreter (0x20 ∷ 0x2D ∷ tail) h refl
    ∙ ap (map_option (λ ws. interpreter ∷ ws)) (
        ordinary_next (suc n) (0x2D ∷ []) tail refl (escaped_args-blank args)
        ∙ ap (map_option (λ ws. (0x2D ∷ []) ∷ ws))
            (read_words-escaped_args (suc n) args (omega arith)))
flag_words false n interpreter args h le =
    let tail : Bytes = escaped_args args in
    ordinary_next (suc (suc n)) interpreter (0x20 ∷ 0x2D ∷ 0x73 ∷ 0x20 ∷ 0x2D ∷ 0x2D ∷ tail) h refl
    ∙ ap (map_option (λ ws. interpreter ∷ ws)) (
        ordinary_next (suc n) (0x2D ∷ 0x73 ∷ []) (0x20 ∷ 0x2D ∷ 0x2D ∷ tail) refl refl
        ∙ ap (map_option (λ ws. (0x2D ∷ 0x73 ∷ []) ∷ ws)) (
            ordinary_next n (0x2D ∷ 0x2D ∷ []) tail refl (escaped_args-blank args)
            ∙ ap (map_option (λ ws. (0x2D ∷ 0x2D ∷ []) ∷ ws)) (read_words-escaped_args n args le)))

-- The command line of a script on a POSIX target, in the login directory and for an interpreter's
-- name of ordinary bytes, reads back as the assignments of exactly those variables whose names are
-- identifiers, sorted by name, the interpreter with its flags, and the arguments, each exactly as
-- given, whatever quotes, blanks and other bytes the values and arguments hold (but for NUL, which
-- the reader takes like any byte and no command line can hold).
pub read_words-ssh_script_command :
    (interpreter : Bytes) (args : List Bytes) (env : Env)
    → all_ordinary interpreter ≡ true
    → (vars : Env) × IsArranged env vars
      × HasSortedKeys vars
      × (read_words
            (length vars + (length args + 3))
            (0x20 ∷ ssh_script_command interpreter args env [])
          ≡ some (
              map assignment vars
              ++ (interpreter ∷ (interpreter_flags (interpreter == bytes "python3") ++ args))))
unfolding ssh_script_command env_prefix cd_prefix
read_words-ssh_script_command interpreter args env h =
    let vars : Env = sorted_env env in
    (
      vars,
      sorted_env-IsArranged env,
      sorted_env-HasSortedKeys env,
      assignment_words (length vars + (length args + 3)) (suc (suc (suc (length args)))) vars _
            (sorted_env-HasEnvKeys env) (omega arith)
          ∙ ap (append_words (map assignment vars)) (
              flag_words (interpreter == bytes "python3") (length args) interpreter args h
                (omega arith)),
    )

-- A working directory that is not empty comes first, as the one argument of `cd`, with `&&` before
-- the rest.
pub cd_prefix_lem :
    (dir : Bytes)
    → dir ≢ []
    → ((word : Bytes) × (cd_prefix dir ≡ bytes "cd " ++ (word ++ bytes " && "))
        × (read_word plain (word ++ bytes " && ") ≡ some (dir, bytes " && ")))
unfolding cd_prefix bytes
cd_prefix_lem [] h = absurd (h refl)
cd_prefix_lem (c ∷ dir) h = (shell_escape (c ∷ dir), refl, escaped_word (c ∷ dir) _ refl)
