-- ===== src/Login/Lockout.antt =====
-- The login guard: who is locked out, for how long, and what a login does.
use webhook_ui.Common.{
  ℕ, ◌+◌, ◌-◌, ◌≤◌, ◌<◌, ◌≡◌, refl, inl, inr, Bool, true, false, not, ◌&&◌, Option, none, some, [],
  ◌∷◌, ◌++◌, lookup, delete, lookup-insert, lookup-delete, leb, ◌==◌, ==_refl, if◌then◌else◌, Bytes,
  bytes_eq, nat_beq, arith, Option-cases, Bool-cases,
}
use webhook_ui.Login.{
  FailureRecord, LoginGuard, guard_key, count_of, LoginAnswer, wrong_credentials, session_error,
  logged_in, locked, Admin, login,
}

-- The failures that count at `now`: a record counts until the lockout has passed.
abbrev pub live_record : LoginGuard → Bytes → ℕ → Option FailureRecord
live_record g key now = elim (lookup key g.failures) [
  | none ↦ none
  | some r ↦ if leb (r.last_failure + g.lockout) now then none else some r
]

abbrev pub failures_of : LoginGuard → Bytes → Bytes → ℕ → ℕ
failures_of g username ip now = count_of (live_record g (guard_key username ip) now)

unfoldable pub no_bar : Bytes → Bool
no_bar [] = true
no_bar (c ∷ s) = not (nat_beq c 0x7C) && no_bar s

no_bar-append : (v j : Bytes) → no_bar (v ++ (0x7C ∷ j)) ≡ false
unfolding no_bar
no_bar-append [] j = refl
no_bar-append (c ∷ v) j = ground (arith, no_bar-append v j)

bar_split :
    (u v i j : Bytes)
    → no_bar i ≡ true
    → no_bar j ≡ true
    → u ++ (0x7C ∷ i) ≡ v ++ (0x7C ∷ j)
    → (u ≡ v) × (i ≡ j)
unfolding no_bar
bar_split [] [] i j hi hj e = (refl, ground arith)
bar_split (c ∷ u) (d ∷ v) i j hi hj e = ground (arith, bar_split u v i j hi hj)
bar_split [] (d ∷ v) i j hi hj e = ground (arith, no_bar-append v j)
bar_split (c ∷ u) [] i j hi hj e = ground (arith, no_bar-append u i)

-- Two pairs of a user name and an address, of which neither address holds a bar, share a record
-- only if they are the same, whatever the user names hold.
pub guard_key_injective :
    (u v i j : Bytes)
    → no_bar i ≡ true
    → no_bar j ≡ true
    → guard_key u i ≡ guard_key v j
    → (u ≡ v) × (i ≡ j)
unfolding guard_key
guard_key_injective = bar_split

module _ (admin : Admin) (save_fails : Bool) (ip username password : Bytes) (now : ℕ)
    (g : LoginGuard) (some_limit : 1 ≤ g.max_failures) (some_lockout : 1 ≤ g.lockout) where
  abbrev answer : LoginAnswer × LoginGuard
  answer = login admin save_fails ip now (some (username, password)) g

  abbrev right : Bool
  right = username == admin.username && password == admin.password

  -- Where the limit and the lockout are at least one: a name and address that have failed `max_failures` times within the lockout are answered "locked",
  -- whatever the password, with what is left of the lockout, and the failures do not change.
  pub login_locked :
      g.max_failures ≤ failures_of g username ip now
      → ((r : FailureRecord) × (live_record g (guard_key username ip) now ≡ some r)
          × (1 ≤ r.last_failure + g.lockout - now)
          × (answer.0 ≡ locked (r.last_failure + g.lockout - now)))
        × (answer.1 ≡ g)
  unfolding login
  login_locked h = elim (Option-cases (lookup (guard_key username ip) g.failures)) [
    | inl e ↦ let bad : ⊥ = ground arith in absurd bad
    | inr (r, e) ↦ ((r, ground arith, ground arith, ground arith), ground arith)
  ]

  -- Where the limit and the lockout are at least one: with failures to spare, the right name and password are answered by whether the session can be
  -- saved, and the pair's failures are forgotten either way.
  pub login_right :
      failures_of g username ip now < g.max_failures
      → right ≡ true
      → ((answer.0 ≡ (if save_fails then session_error else logged_in))
          × (failures_of answer.1 username ip now ≡ 0))
  unfolding login
  login_right h ok = elim (Option-cases (lookup (guard_key username ip) g.failures)) [
    | inl e ↦ (
      ground arith,
      ground (
        arith,
        lookup-delete (guard_key username ip) (guard_key username ip) g.failures,
        ==_refl (guard_key username ip),
      ),
    )
    | inr (r, e) ↦ (
      ground arith,
      ground (
        arith,
        lookup-delete (guard_key username ip) (guard_key username ip) g.failures,
        lookup-delete (guard_key username ip) (guard_key username ip)
            (delete (guard_key username ip) g.failures),
        ==_refl (guard_key username ip),
      ),
    )
  ]

  -- Where the limit and the lockout are at least one: with failures to spare, any other name or password counts one more failure of the pair, and is
  -- answered "locked" for the whole lockout exactly if that failure reaches the limit.
  pub login_wrong :
      failures_of g username ip now < g.max_failures
      → right ≡ false
      → ((answer.0 ≡ (
            if leb g.max_failures (failures_of g username ip now + 1)
            then locked g.lockout
            else wrong_credentials))
          × (failures_of answer.1 username ip now ≡ failures_of g username ip now + 1))
  unfolding login
  login_wrong h ok = elim (Option-cases (lookup (guard_key username ip) g.failures)) [
    | inl e ↦ (
      ground arith,
      ground (
        arith,
        lookup-insert (guard_key username ip) (guard_key username ip)
            (record { count = 1; last_failure = now }) g.failures,
        ==_refl (guard_key username ip),
      ),
    )
    | inr (r, e) ↦ elim (Bool-cases (leb (r.last_failure + g.lockout) now)) [
      | inl stale ↦ (
        ground (
          arith,
          lookup-delete (guard_key username ip) (guard_key username ip) g.failures,
          ==_refl (guard_key username ip),
        ),
        ground (
          arith,
          lookup-delete (guard_key username ip) (guard_key username ip) g.failures,
          lookup-insert (guard_key username ip) (guard_key username ip)
              (record { count = 1; last_failure = now })
              (delete (guard_key username ip) g.failures),
          ==_refl (guard_key username ip),
        ),
      )
      | inr live ↦ (
        ground arith,
        ground (
          arith,
          lookup-insert (guard_key username ip) (guard_key username ip)
              (record { count = r.count + 1; last_failure = now }) g.failures,
          ==_refl (guard_key username ip),
        ),
      )
    ]
  ]
