-- ===== src/Shell/Variables.antt =====
-- Which variables reach a command line, and in what order: sortedEnvKeys of internal/services/ssh.go.
use webhook_ui.Common.{
  ℕ, ◌≤◌, ◌<◌, ◌≡◌, ◌⊎◌, inl, inr, refl, ap, subst, true, false, [], ◌∷◌, ◌++◌, Bytes, All, arith,
  Bool-cases, ltb,
}
use webhook_ui.Shell.{
  is_letter, is_digit, all_word, is_env_key, bytes_le, Env, insert_key, sorted_env,
}

-- A letter of the alphabet, or the underscore.
abbrev pub IsLetter : ℕ → Type 0
IsLetter c = ((b'A' ≤ c) × (c ≤ b'Z')) ⊎ ((b'a' ≤ c) × (c ≤ b'z')) ⊎ (c ≡ b'_')

abbrev pub IsWordByte : ℕ → Type 0
IsWordByte c = IsLetter c ⊎ ((b'0' ≤ c) × (c ≤ b'9'))

-- A name that a shell takes for a variable's.
abbrev pub IsIdentifier : Bytes → Type 0
IsIdentifier [] = ⊥
IsIdentifier (c ∷ k) = IsLetter c × All IsWordByte k

-- The second list holds, in some order, exactly those entries of the first whose key is an
-- identifier.
pub data IsArranged : Env → Env → Type 0 where
  no_entry : IsArranged [] []
  left_out :
      {k v : Bytes} {env vars : Env}
      → ¬ IsIdentifier k
      → IsArranged env vars
      → IsArranged ((k, v) ∷ env) vars
  put :
      {k v : Bytes} {env : Env} (before after : Env)
      → IsIdentifier k
      → IsArranged env (before ++ after)
      → IsArranged ((k, v) ∷ env) (before ++ (k, v) ∷ after)

-- The dictionary's order.
abbrev pub IsBefore : Bytes → Bytes → Type 0
IsBefore [] t = Unit
IsBefore (a ∷ s) [] = ⊥
IsBefore (a ∷ s) (b ∷ t) = (a < b) ⊎ ((a ≡ b) × IsBefore s t)

abbrev pub IsAhead : Bytes → Env → Type 0
IsAhead k [] = Unit
IsAhead k ((j, w) ∷ env) = IsBefore k j

abbrev pub HasSortedKeys : Env → Type 0
HasSortedKeys [] = Unit
HasSortedKeys ((k, v) ∷ env) = IsAhead k env × HasSortedKeys env

IsBefore-bytes_le : (s t : Bytes) → bytes_le s t ≡ true → IsBefore s t
unfolding bytes_le
IsBefore-bytes_le [] t h = tt
IsBefore-bytes_le (a ∷ s) [] h = cc
IsBefore-bytes_le (a ∷ s) (b ∷ t) h = elim (Bool-cases (ltb a b)) [
  | inl e ↦ inl (ground (arith, e))
  | inr e ↦ inr (ground (arith, h, e), IsBefore-bytes_le s t (ground (arith, h, e)))
]

IsBefore-other : (s t : Bytes) → bytes_le s t ≡ false → IsBefore t s
unfolding bytes_le
IsBefore-other [] t h = cc
IsBefore-other (a ∷ s) [] h = tt
IsBefore-other (a ∷ s) (b ∷ t) h = elim (Bool-cases (ltb b a)) [
  | inl e ↦ inl (ground (arith, e))
  | inr e ↦ inr (ground (arith, h, e), IsBefore-other s t (ground (arith, h, e)))
]

IsAhead-insert_key :
    (i k v : Bytes) (env : Env) → IsBefore i k → IsAhead i env → IsAhead i (insert_key (k, v) env)
unfolding insert_key
IsAhead-insert_key i k v [] b a = b
IsAhead-insert_key i k v ((j, w) ∷ env) b a = elim (Bool-cases (bytes_le k j)) [
  | inl e ↦ rw e b
  | inr e ↦ rw e a
]

insert_key-HasSortedKeys :
    (k v : Bytes) (env : Env) → HasSortedKeys env → HasSortedKeys (insert_key (k, v) env)
unfolding insert_key
insert_key-HasSortedKeys k v [] h = (tt, tt)
insert_key-HasSortedKeys k v ((j, w) ∷ env) h = elim (Bool-cases (bytes_le k j)) [
  | inl e ↦ rw e (IsBefore-bytes_le k j e, h)
  | inr e ↦ rw e (
    IsAhead-insert_key j k v env (IsBefore-other k j e) h.0,
    insert_key-HasSortedKeys k v env h.1,
  )
]

pub sorted_env-HasSortedKeys : (env : Env) → HasSortedKeys (sorted_env env)
unfolding sorted_env
sorted_env-HasSortedKeys [] = tt
sorted_env-HasSortedKeys ((k, v) ∷ env) = elim (Bool-cases (is_env_key k)) [
  | inl e ↦ rw e (insert_key-HasSortedKeys k v (sorted_env env) (sorted_env-HasSortedKeys env))
  | inr e ↦ rw e (sorted_env-HasSortedKeys env)
]

insert_key_split :
    (k v : Bytes) (env : Env)
    → (before : Env) × (after : Env) × (env ≡ before ++ after)
      × (insert_key (k, v) env ≡ before ++ (k, v) ∷ after)
unfolding insert_key
insert_key_split k v [] = ([], [], refl, refl)
insert_key_split k v ((j, w) ∷ env) = elim (Bool-cases (bytes_le k j)) [
  | inl e ↦ ([], (j, w) ∷ env, refl, rw e refl)
  | inr e ↦
      let (before, after, split, put_in) = insert_key_split k v env in
      ((j, w) ∷ before, after, ap (λ t. (j, w) ∷ t) split, rw e (ap (λ t. (j, w) ∷ t) put_in))
]

is_letter-IsLetter : (c : ℕ) → is_letter c ≡ true → IsLetter c
unfolding is_letter
is_letter-IsLetter c h = ground (arith, h)

IsLetter-is_letter : (c : ℕ) → IsLetter c → is_letter c ≡ true
unfolding is_letter
IsLetter-is_letter c h = ground (arith, h)

all_word-IsWordByte : (k : Bytes) → all_word k ≡ true → All IsWordByte k
unfolding all_word is_letter is_digit
all_word-IsWordByte [] h = tt
all_word-IsWordByte (c ∷ k) h = (ground (arith, h), all_word-IsWordByte k (ground (arith, h)))

IsWordByte-all_word : (k : Bytes) → All IsWordByte k → all_word k ≡ true
unfolding all_word is_letter is_digit
IsWordByte-all_word [] h = refl
IsWordByte-all_word (c ∷ k) h = ground (arith, h.0, IsWordByte-all_word k h.1)

is_env_key-IsIdentifier : (k : Bytes) → is_env_key k ≡ true → IsIdentifier k
unfolding is_env_key
is_env_key-IsIdentifier [] h = cc
is_env_key-IsIdentifier (c ∷ k) h =
    (is_letter-IsLetter c (ground (arith, h)), all_word-IsWordByte k (ground (arith, h)))

IsIdentifier-is_env_key : (k : Bytes) → IsIdentifier k → is_env_key k ≡ true
unfolding is_env_key
IsIdentifier-is_env_key [] h = absurd h
IsIdentifier-is_env_key (c ∷ k) h =
    ground (arith, IsLetter-is_letter c h.0, IsWordByte-all_word k h.1)

pub sorted_env-IsArranged : (env : Env) → IsArranged env (sorted_env env)
unfolding sorted_env
sorted_env-IsArranged [] = no_entry
sorted_env-IsArranged ((k, v) ∷ env) = elim (Bool-cases (is_env_key k)) [
  | inl e ↦
      let (before, after, split, put_in) = insert_key_split k v (sorted_env env) in
      rw (e, put_in)
        (put before after (is_env_key-IsIdentifier k e)
          (subst (λ vars. IsArranged env vars) split (sorted_env-IsArranged env)))
  | inr e ↦
      rw e
        (left_out (λ i. ground (arith, e, IsIdentifier-is_env_key k i)) (sorted_env-IsArranged env))
]
