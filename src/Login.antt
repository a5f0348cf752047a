-- ===== src/Login.antt =====
-- internal/middleware/rate_limiter.go and login_guard.go, and the login handler of
-- internal/handlers/auth.go.
--
-- Times and durations are numbers of one unit; `now.Sub(t) >= d` is `t + d ≤ now`. The zero time
-- that `lastSweep` starts with is `none`: every real time is later than it by more than a window.
pub mod Limits
pub mod Lockout
mod Examples
use webhook_ui.Common.{
  ℕ, ◌+◌, ◌-◌, String, Bool, true, false, not, ◌&&◌, ◌||◌, Option, none, some, List, [], ◌∷◌, ◌++◌,
  Map, lookup, insert, delete, ltb, leb, ◌==◌, string_eq, if◌then◌else◌, Bytes, bytes_eq, ℤ,
  is_below,
}

pub record Window : Type 0 where
  pub count : ℕ
  pub start : ℕ

pub record RateLimiter : Type 0 where
  pub limit : ℕ
  pub window : ℕ
  pub windows : Map String Window
  pub last_sweep : Option ℕ

abbrev pub new_rate_limiter : ℕ → ℕ → RateLimiter
new_rate_limiter limit window = record {
  limit = limit;
  window = window;
  windows = [];
  last_sweep = none;
}

-- now.Sub(w.start) >= r.window
abbrev pub is_stale : ℕ → ℕ → Window → Bool
is_stale size now w = leb (w.start + size) now

unfoldable pub sweep_windows : ℕ → ℕ → Map String Window → Map String Window
sweep_windows size now [] = []
sweep_windows size now ((k, w) ∷ rest) =
    let kept = sweep_windows size now rest in if is_stale size now w then kept else (k, w) ∷ kept

abbrev pub is_due : RateLimiter → ℕ → Bool
is_due r now = elim r.last_sweep [ none ↦ true | some t ↦ leb (t + r.window) now ]

-- The first half of Allow.
unfoldable pub sweep : ℕ → RateLimiter → RateLimiter
unfolding sweep_windows
sweep now r =
    if is_due r now
    then record r { last_sweep = some now; windows = sweep_windows r.window now r.windows }
    else r

-- The window that a request of `key` counts in.
unfoldable pub current_window : String → ℕ → RateLimiter → Window
current_window key now r = elim (lookup key r.windows) [
  | none ↦ record { count = 0; start = now }
  | some w ↦ if is_stale r.window now w then record { count = 0; start = now } else w
]

-- The second half of Allow.
unfoldable pub count_request : String → ℕ → RateLimiter → Bool × RateLimiter
count_request key now r =
    let w = current_window key now r in
    (
      leb (w.count + 1) r.limit,
      record r { windows = insert key (record w { count = w.count + 1 }) r.windows },
    )

unfoldable pub allow : String → ℕ → RateLimiter → Bool × RateLimiter
allow key now r = count_request key now (sweep now r)

pub record FailureRecord : Type 0 where
  pub count : ℕ
  pub last_failure : ℕ

pub record LoginGuard : Type 0 where
  pub max_failures : ℕ
  pub lockout : ℕ
  pub failures : Map Bytes FailureRecord

-- username + "|" + ip
unfoldable pub guard_key : Bytes → Bytes → Bytes
guard_key username ip = username ++ (0x7C ∷ ip)

-- (*LoginGuard).get: a stale record is dropped.
unfoldable pub get : Bytes → ℕ → LoginGuard → Option FailureRecord × LoginGuard
get key now g = elim (lookup key g.failures) [
  | none ↦ (none, g)
  | some rec ↦
      if leb (rec.last_failure + g.lockout) now
      then (none, record g { failures = delete key g.failures })
      else (some rec, g)
]

-- LockedRemaining: what is left of the lockout, or 0.
unfoldable pub locked_remaining : Bytes → Bytes → ℕ → LoginGuard → ℕ × LoginGuard
unfolding get guard_key
locked_remaining username ip now g =
    let (rec, g') = get (guard_key username ip) now g in
    elim rec [
      | none ↦ (0, g')
      | some r ↦
          if ltb r.count g.max_failures then (0, g') else (r.last_failure + g.lockout - now, g')
    ]

abbrev pub count_of : Option FailureRecord → ℕ
count_of none = 0
count_of (some r) = r.count

unfoldable pub record_failure : Bytes → Bytes → ℕ → LoginGuard → ℕ × LoginGuard
unfolding get guard_key
record_failure username ip now g =
    let key = guard_key username ip in
    let (rec, g') = get key now g in
    let count = count_of rec + 1 in
    (
      if leb g.max_failures count then g.lockout else 0,
      record g' {
        failures = insert key (record { count = count; last_failure = now }) g'.failures;
      },
    )

unfoldable pub reset : Bytes → Bytes → LoginGuard → LoginGuard
unfolding guard_key
reset username ip g = record g { failures = delete (guard_key username ip) g.failures }

pub data LoginAnswer : Type 0 where
  invalid_request wrong_credentials session_error logged_in : LoginAnswer
  locked : (remaining : ℕ) → LoginAnswer

pub record Admin : Type 0 where
  pub username : Bytes
  pub password : Bytes

-- (*AuthHandler).Login; `none` is a body without both fields.
unfoldable pub login :
    Admin → Bool → Bytes → ℕ → Option (Bytes × Bytes) → LoginGuard → LoginAnswer × LoginGuard
unfolding locked_remaining record_failure reset
login admin save_fails ip now none g = (invalid_request, g)
login admin save_fails ip now (some (username, password)) g =
    let (remaining, g') = locked_remaining username ip now g in
    if ltb 0 remaining
    then (locked remaining, g')
    else if username == admin.username && password == admin.password
    then (if save_fails then session_error else logged_in, reset username ip g')
    else let (lock, g'') = record_failure username ip now g' in
      (if ltb 0 lock then locked lock else wrong_credentials, g'')
