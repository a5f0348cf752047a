-- ===== src/Settings.antt =====
-- internal/handlers/settings.go, internal/handlers/retention.go and
-- internal/middleware/apitoken.go:
-- the stored policy for old executions, the sweep that follows it, and the API token.
--
-- `strconv.Atoi`, `strconv.Itoa` are arguments. A sweep's channel is a number; `none` is the panic of
-- closing one that is closed. Stopping a sweep only closes its channel: its goroutine may still be in
-- a cleanup, or begin one before it meets the channel. `retentionMu` makes saving and applying one
-- step.
pub mod Laws
mod Examples
use webhook_ui.Common.{
  ℕ, ◌+◌, String, Bool, true, false, not, ◌&&◌, ◌||◌, Option, none, some, List, [], ◌∷◌, Map,
  lookup, insert, delete, ◌==◌, string_eq, nat_eq, if◌then◌else◌, ℤ, pos, negsuc, is_below,
  is_above,
}
use webhook_ui.Store.{Db}

pub record RetentionSettings : Type 0 where
  pub enabled : Bool
  pub days : ℤ

abbrev pub setting_key_retention_enabled : String
setting_key_retention_enabled = "retention_enabled"

abbrev pub setting_key_retention_days : String
setting_key_retention_days = "retention_days"

abbrev pub default_retention_days : ℤ
default_retention_days = pos 30

-- minRetentionDays and maxRetentionDays
abbrev pub in_range : ℤ → Bool
in_range days = not (is_below days 1) && not (is_above days 3650)

-- getSetting; `none` is an error.
unfoldable pub get_setting : Bool → String → Db → Option String
get_setting fails key db =
    if fails
    then none
    else elim (lookup key db.settings) [ none ↦ some "" | some value ↦ some value ]

-- setSetting, and each statement of SaveRetentionSettings.
abbrev pub upsert : String → String → Db → Db
upsert key value db = record db { settings = insert key value db.settings }

-- strconv.FormatBool
abbrev pub format_bool : Bool → String
format_bool true = "true"
format_bool false = "false"

-- The stop function of a policy that deletes nothing does nothing.
pub data StopFunction : Type 0 where
  no_op : StopFunction
  closes : ℕ → StopFunction

-- The goroutine of a sweep: the days that it was started with, and whether its channel is closed.
pub record Sweep : Type 0 where
  pub days : ℤ
  pub closed : Bool

-- The controller, with every sweep that was started.
pub record RetentionController : Type 0 where
  pub stop : Option StopFunction
  pub sweeps : Map ℕ Sweep
  pub next_channel : ℕ

abbrev pub new_retention_controller : RetentionController
new_retention_controller = record { stop = none; sweeps = []; next_channel = 0 }

unfoldable pub start_retention_sweep : ℤ → RetentionController → StopFunction × RetentionController
start_retention_sweep days rc = if not (is_above days 0) then (no_op, rc) else (
  closes rc.next_channel,
  record rc {
    sweeps = insert rc.next_channel (record { days = days; closed = false }) rc.sweeps;
    next_channel = rc.next_channel + 1;
  },
)

-- `rc.stop()`, where it is not nil.
unfoldable pub call_stop : RetentionController → Option RetentionController
call_stop rc = elim rc.stop [
  | none ↦ some rc
  | some no_op ↦ some rc
  | some (closes ch) ↦ elim (lookup ch rc.sweeps) [
    | none ↦ none
    | some sweep ↦
        if sweep.closed
        then none
        else some (record rc { sweeps = insert ch (record sweep { closed = true }) rc.sweeps })
  ]
]

abbrev pub swept_days : RetentionSettings → ℤ
swept_days s = if s.enabled then s.days else pos 0

unfoldable pub apply : RetentionSettings → RetentionController → Option RetentionController
unfolding call_stop start_retention_sweep
apply s rc = elim (call_stop rc) [
  | none ↦ none
  | some stopped ↦
      let (stop, started) = start_retention_sweep (swept_days s) stopped in
      some (record started { stop = some stop })
]

-- (*RetentionController).Stop
unfoldable pub stop_sweep : RetentionController → Option RetentionController
unfolding call_stop
stop_sweep rc = elim (call_stop rc) [
  | none ↦ none
  | some stopped ↦ some (record stopped { stop = none })
]

pub record SaveFaults : Type 0 where
  pub begin : Bool
  pub enabled : Bool
  pub days : Bool
  pub commit : Bool

pub data SettingsReply : Type 0 where
  bad_request server_error : SettingsReply
  stored : RetentionSettings → SettingsReply

module _ (atoi : String → Option ℤ) (itoa : ℤ → String) where
  -- LoadRetentionSettings; `none` is an error.
  unfoldable pub load_retention_settings : Bool → Bool → Db → Option RetentionSettings
  unfolding get_setting
  load_retention_settings enabled_fails days_fails db =
      elim (get_setting enabled_fails setting_key_retention_enabled db) [
        | none ↦ none
        | some enabled ↦ elim (get_setting days_fails setting_key_retention_days db) [
          | none ↦ none
          | some days ↦ some (record {
            enabled = enabled == "true";
            days = elim (atoi days) [
              | none ↦ default_retention_days
              | some n ↦ if in_range n then n else default_retention_days
            ];
          })
        ]
      ]

  -- SaveRetentionSettings; `none` is an error, with which the transaction is rolled back.
  unfoldable pub save_retention_settings : SaveFaults → RetentionSettings → Db → Option Db
  save_retention_settings f s db =
      if f.begin || f.enabled || f.days || f.commit
      then none
      else some (
          upsert setting_key_retention_days (itoa s.days)
            (upsert setting_key_retention_enabled (format_bool s.enabled) db))

  -- UpdateRetention, with the fields of the body as far as they are there. The controller may be
  -- nil.
  unfoldable pub update_retention :
      SaveFaults
      → Option Bool
      → Option ℤ
      → Db
      → Option RetentionController
      → Option (SettingsReply × Db × Option RetentionController)
  unfolding save_retention_settings apply
  update_retention f (some enabled) (some days) db rc =
      let s : RetentionSettings = record { enabled = enabled; days = days } in
      if not (in_range days)
      then some (bad_request, db, rc)
      else elim (save_retention_settings f s db) [
        | none ↦ some (server_error, db, rc)
        | some db' ↦ elim rc [
          | none ↦ some (stored s, db', none)
          | some controller ↦ elim (apply s controller) [
            | none ↦ none
            | some applied ↦ some (stored s, db', some applied)
          ]
        ]
      ]
  update_retention f _ _ db rc = some (bad_request, db, rc)

-- APITokenRequired
pub data Access : Type 0 where
  lookup_failed not_configured wrong_token passes : Access

abbrev pub setting_key_api_token : String
setting_key_api_token = "api_token"

-- With the lookup of the token, and the header's text.
unfoldable pub api_token_required : Option String → String → Access
api_token_required none provided = lookup_failed
api_token_required (some token) provided =
    if token == "" then not_configured else if provided == token then passes else wrong_token

-- APIToken
unfoldable pub api_token : Bool → Db → Option String
unfolding get_setting
api_token fails db = get_setting fails setting_key_api_token db

-- RegenerateAPIToken, with the hexadecimal text of the random bytes, or none where reading them
-- fails; `none` is an error.
unfoldable pub regenerate_api_token : Bool → Option String → Db → Option String × Db
regenerate_api_token fails none db = (none, db)
regenerate_api_token fails (some token) db =
    if fails then (none, db) else (some token, upsert setting_key_api_token token db)
