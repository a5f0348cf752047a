-- ===== src/Login/Limits.antt =====
-- The rate limiter, whose sweep no caller can see.
use mathlib.Core.Path.{ap₂}
use webhook_ui.Common.{
  inl, inr, ap, ◌∙◌, ℕ, ◌+◌, ◌≤◌, ◌≡◌, refl, String, Bool, true, false, Option, none, some, [], ◌∷◌,
  Map, lookup, lookup-insert, IsUnique, insert-IsUnique, ◌==◌, ==_iff, string_eq, if◌then◌else◌,
  leb, arith, Bool-cases,
}
use webhook_ui.Login.{
  Window, RateLimiter, is_stale, sweep_windows, is_due, sweep, current_window, count_request, allow,
}

abbrev pub live : ℕ → ℕ → Option Window → Option Window
live size now none = none
live size now (some w) = if is_stale size now w then none else some w

-- The requests of `key` that count at time `now`, and the start of their window.
abbrev pub live_window : RateLimiter → String → ℕ → Option Window
live_window r key now = live r.window now (lookup key r.windows)

abbrev pub count_of : Option Window → ℕ
count_of none = 0
count_of (some w) = w.count

abbrev pub live_count : RateLimiter → String → ℕ → ℕ
live_count r key now = count_of (live_window r key now)

fresh-sweep_windows :
    (size now : ℕ) (key : String) (m : Map String Window)
    → lookup key m ≡ none
    → lookup key (sweep_windows size now m) ≡ none
unfolding sweep_windows lookup
fresh-sweep_windows size now key [] h = refl
fresh-sweep_windows size now key ((k, w) ∷ m) h = ground (arith, fresh-sweep_windows size now key m)

live-sweep_windows :
    (size now t : ℕ) (key : String) (m : Map String Window)
    → IsUnique m
    → now ≤ t
    → live size t (lookup key (sweep_windows size now m)) ≡ live size t (lookup key m)
unfolding sweep_windows lookup
live-sweep_windows size now t key [] u h = refl
live-sweep_windows size now t key ((k, w) ∷ m) u h = ground (
  arith,
  live-sweep_windows size now t key m u.1,
  fresh-sweep_windows size now key m,
  ==_iff k key,
)

sweep_windows-IsUnique :
    (size now : ℕ) (m : Map String Window) → IsUnique m → IsUnique (sweep_windows size now m)
unfolding sweep_windows
sweep_windows-IsUnique size now [] u = tt
sweep_windows-IsUnique size now ((k, w) ∷ m) u =
    ground (arith, sweep_windows-IsUnique size now m u.1, fresh-sweep_windows size now k m)

module _ (r : RateLimiter) (u : IsUnique r.windows) where
  live-sweep :
      (now t : ℕ) (key : String) → now ≤ t → live_window (sweep now r) key t ≡ live_window r key t
  unfolding sweep
  live-sweep now t key h = elim (Bool-cases (is_due r now)) [
    | inl due ↦ rw due (live-sweep_windows r.window now t key r.windows u h)
    | inr early ↦ rw early
  ]

  sweep-IsUnique : (now : ℕ) → IsUnique (sweep now r).windows
  unfolding sweep
  sweep-IsUnique now = elim (Bool-cases (is_due r now)) [
    | inl due ↦ rw due (sweep_windows-IsUnique r.window now r.windows u)
    | inr early ↦ rw early u
  ]

  sweep-limits : (now : ℕ) → ((sweep now r).limit ≡ r.limit) × ((sweep now r).window ≡ r.window)
  unfolding sweep
  sweep-limits now = ground arith

-- The window after one more request.
abbrev pub counted : ℕ → Option Window → Window
counted now none = record { count = 1; start = now }
counted now (some w) = record w { count = w.count + 1 }

if_live :
    (b : Bool) (size t : ℕ) (w : Window) (o : Option Window)
    → live size t (if b then some w else o) ≡ (if b then live size t (some w) else live size t o)
if_live true size t w o = refl
if_live false size t w o = refl

current_window-counted :
    (s : RateLimiter) (key : String) (now : ℕ)
    → record (current_window key now s) { count = (current_window key now s).count + 1 }
      ≡ counted now (live_window s key now)
unfolding current_window
current_window-counted s key now = ground arith

count-counted :
    (s : RateLimiter) (key : String) (now : ℕ)
    → (current_window key now s).count ≡ live_count s key now
unfolding current_window
count-counted s key now = ground arith

-- What a request sees and leaves, as the windows that are live.
pub record IsCounted (key : String) (now : ℕ) (r : RateLimiter) (answer : Bool) (r' : RateLimiter)
    : Type 0 where
  pub allowed : answer ≡ leb (live_count r key now + 1) r.limit
  pub windows :
      (j : String) (t : ℕ)
      → now ≤ t
      → live_window r' j t ≡ (
          if key == j
          then live r.window t (some (counted now (live_window r key now)))
          else live_window r j t)
  pub unique : IsUnique r'.windows
  pub limits : (r'.limit ≡ r.limit) × (r'.window ≡ r.window)

count_request-IsCounted :
    (key : String) (now : ℕ) (r : RateLimiter)
    → IsUnique r.windows
    → IsCounted key now r (count_request key now r).0 (count_request key now r).1
unfolding count_request
count_request-IsCounted key now r u = record {
  allowed = ap (λ n. leb (n + 1) r.limit) (count-counted r key now);
  windows = λ j t h. rw (current_window-counted r key now) (
      ap (live r.window t) (lookup-insert j key (counted now (live_window r key now)) r.windows)
      ∙ if_live (key == j) r.window t (counted now (live_window r key now)) (lookup j r.windows));
  unique =
      insert-IsUnique key
        (record (current_window key now r) { count = (current_window key now r).count + 1 })
        r.windows u;
  limits = (refl, refl);
}

-- A request at `now` is allowed exactly if it is within the limit of its key's live window, which
-- is then one longer or starts anew; at this and any later time no other key's window has
-- changed, whether stale windows were swept or not; and no key is held twice.
pub allow-IsCounted :
    (key : String) (now : ℕ) (r : RateLimiter)
    → IsUnique r.windows
    → IsCounted key now r (allow key now r).0 (allow key now r).1
unfolding allow
allow-IsCounted key now r u =
    let c = count_request-IsCounted key now (sweep now r) (sweep-IsUnique r u now) in
    let same = live-sweep r u now in
    let (l, w) = sweep-limits r u now in
    record {
      allowed = c.allowed ∙ ap₂ (λ o n. leb (count_of o + 1) n) (same now key (omega arith)) l;
      windows = λ j t h.
          c.windows j t h
          ∙ ap₂ (λ o p. if key == j then live (sweep now r).window t (some (counted now o)) else p)
              (same now key (omega arith)) (same t j h)
          ∙ ap
              (λ size.
                if key == j
                then live size t (some (counted now (live_window r key now)))
                else live_window r j t)
              w;
      unique = c.unique;
      limits = (c.limits.0 ∙ l, c.limits.1 ∙ w);
    }
