-- ===== src/Login/Examples.antt =====
-- An address that has failed twice of three allowed times, and one that has failed three times.
use webhook_ui.Common.{
  ℕ, ◌+◌, ◌-◌, ◌≡◌, ◌≤◌, ◌<◌, refl, true, false, some, [], ◌∷◌, lookup, leb, string_eq, bytes_eq,
  nat_eq, if◌then◌else◌, Bytes, IsUnique, arith,
}
use webhook_ui.Login.{
  RateLimiter, allow, FailureRecord, LoginGuard, guard_key, Admin, login, locked, logged_in,
  wrong_credentials, session_error,
}
use webhook_ui.Login.Limits.{IsCounted, allow-IsCounted}
use webhook_ui.Login.Lockout.{
  live_record, failures_of, login_locked, login_right, login_wrong, no_bar, guard_key_injective,
}

abbrev busy : RateLimiter
busy = record {
  limit = 2;
  window = 60;
  windows =
      ("10.0.0.1", record { count = 2; start = 100 })
      ∷ ("10.0.0.2", record { count = 1; start = 20 })
      ∷ [];
  last_sweep = some 70;
}

unique : IsUnique busy.windows
unfolding lookup
unique = (refl, (refl, tt))

allow-IsCounted_example :
    IsCounted "10.0.0.1" 130 busy (allow "10.0.0.1" 130 busy).0 (allow "10.0.0.1" 130 busy).1
allow-IsCounted_example = allow-IsCounted "10.0.0.1" 130 busy unique

abbrev user : Bytes
user = 0x61 ∷ []

abbrev address : Bytes
address = 0x3A ∷ 0x31 ∷ []

abbrev account : Admin
account = record { username = user; password = 0x70 ∷ [] }

abbrev after_failures : ℕ → LoginGuard
after_failures n = record {
  max_failures = 3;
  lockout = 900;
  failures = (0x61 ∷ 0x7C ∷ 0x3A ∷ 0x31 ∷ [], record { count = n; last_failure = 1000 }) ∷ [];
}

three : 3 ≤ failures_of (after_failures 3) user address 1200
unfolding guard_key lookup
three = omega arith

two : failures_of (after_failures 2) user address 1200 < 3
unfolding guard_key lookup
two = omega arith

login_locked_example :
    ((r : FailureRecord) × (live_record (after_failures 3) (guard_key user address) 1200 ≡ some r)
      × (1 ≤ r.last_failure + 900 - 1200)
      × ((login account false address 1200 (some (user, 0x70 ∷ [])) (after_failures 3)).0
          ≡ locked (r.last_failure + 900 - 1200)))
    × ((login account false address 1200 (some (user, 0x70 ∷ [])) (after_failures 3)).1
        ≡ after_failures 3)
login_locked_example =
    login_locked account false address user (0x70 ∷ []) 1200 (after_failures 3) (omega arith)
      (omega arith) three

login_right_example :
    ((login account false address 1200 (some (user, 0x70 ∷ [])) (after_failures 2)).0
      ≡ (if false then session_error else logged_in))
    × (failures_of
          (login account false address 1200 (some (user, 0x70 ∷ [])) (after_failures 2)).1
          user
          address
          1200
        ≡ 0)
login_right_example =
    login_right account false address user (0x70 ∷ []) 1200 (after_failures 2) (omega arith)
      (omega arith) two refl

login_wrong_example :
    ((login account false address 1200 (some (user, 0x71 ∷ [])) (after_failures 2)).0 ≡ (
      if leb 3 (failures_of (after_failures 2) user address 1200 + 1)
      then locked 900
      else wrong_credentials))
    × (failures_of
          (login account false address 1200 (some (user, 0x71 ∷ [])) (after_failures 2)).1
          user
          address
          1200
        ≡ failures_of (after_failures 2) user address 1200 + 1)
login_wrong_example =
    login_wrong account false address user (0x71 ∷ []) 1200 (after_failures 2) (omega arith)
      (omega arith) two refl

one_key : guard_key user address ≡ guard_key user address
one_key = refl

barless : no_bar address ≡ true
unfolding no_bar
barless = refl

guard_key_injective_example : (user ≡ user) × (address ≡ address)
guard_key_injective_example = guard_key_injective user user address address barless barless one_key
