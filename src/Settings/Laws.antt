-- ===== src/Settings/Laws.antt =====
-- The one sweep that was not stopped is that of the policy last stored; a regenerated token is the
-- only one.
use webhook_ui.Common.{
  ℕ, ◌+◌, ◌≡◌, ◌≢◌, ◌<◌, inl, inr, ◌↔◌, String, Bool, true, false, ◌||◌, Option, none, some, lookup,
  insert, lookup-insert, ==_iff, string_eq, nat_eq, ℤ, arith, Option-cases,
}
use webhook_ui.Store.{Db}
use webhook_ui.Settings.{
  RetentionSettings, Sweep, new_retention_controller, setting_key_retention_enabled,
  setting_key_retention_days, in_range, get_setting, closes, RetentionController, SaveFaults,
  SettingsReply, bad_request, server_error, stored, load_retention_settings, passes,
  api_token_required, api_token, regenerate_api_token, setting_key_api_token,
}

-- The controller can stop exactly the one sweep whose channel is open, if there is one.
pub record IsSingle (rc : RetentionController) : Type 0 where
  pub stoppable :
      (ch : ℕ) (sweep : Sweep)
      → lookup ch rc.sweeps ≡ some sweep
      → sweep.closed ≡ false
      → rc.stop ≡ some (closes ch)
  pub open_ :
      (ch : ℕ)
      → rc.stop ≡ some (closes ch)
      → (sweep : Sweep) × (lookup ch rc.sweeps ≡ some sweep) × (sweep.closed ≡ false)
  pub numbered : (ch : ℕ) (sweep : Sweep) → lookup ch rc.sweeps ≡ some sweep → ch < rc.next_channel

pub new_retention_controller-IsSingle : IsSingle new_retention_controller
unfolding lookup
new_retention_controller-IsSingle = record {
  stoppable = λ ch sweep e. cc;
  open_ = λ ch e. cc;
  numbered = λ ch sweep e. cc;
}

-- Nothing but sweeps that were stopped, and no fewer channels than before.
record IsStopped (rc rc' : RetentionController) : Type 0 where
  same_next : rc'.next_channel ≡ rc.next_channel
  all_closed : (ch : ℕ) (sweep : Sweep) → lookup ch rc'.sweeps ≡ some sweep → sweep.closed ≡ true
  numbered : (ch : ℕ) (sweep : Sweep) → lookup ch rc'.sweeps ≡ some sweep → ch < rc.next_channel

-- The controller after a policy was applied: the only sweep whose channel is open is the policy's,
-- with its days, where the policy is enabled; where it is not, there is none.
pub record IsApplied (s : RetentionSettings) (rc rc' : RetentionController) : Type 0 where
  pub there :
      s.enabled ≡ true
      → lookup rc.next_channel rc'.sweeps ≡ some (record { days = s.days; closed = false })
  pub only :
      (ch : ℕ) (sweep : Sweep)
      → lookup ch rc'.sweeps ≡ some sweep
      → sweep.closed ≡ false
      → (s.enabled ≡ true) × (ch ≡ rc.next_channel)
  pub single : IsSingle rc'

-- The controller with a sweep more.
abbrev with_sweep : ℤ → RetentionController → RetentionController
with_sweep days rc = record rc {
  stop = some (closes rc.next_channel);
  sweeps = insert rc.next_channel (record { days = days; closed = false }) rc.sweeps;
  next_channel = rc.next_channel + 1;
}

module _ (atoi : String → Option ℤ) (itoa : ℤ → String) where
  -- Whatever texts are stored, a policy that is loaded keeps between 1 and 3650 days.
  pub load_retention_settings-in_range :
      (f g : Bool) (db : Db) {s : RetentionSettings}
      → load_retention_settings atoi itoa f g db ≡ some s
      → in_range s.days ≡ true
  unfolding load_retention_settings
  load_retention_settings-in_range f g db {s} h =
      elim (Option-cases (get_setting f setting_key_retention_enabled db)) [
        | inl e ↦ let bad : ⊥ = ground arith in absurd bad
        | inr (enabled, e) ↦ elim (Option-cases (get_setting g setting_key_retention_days db)) [
          | inl k ↦ let bad : ⊥ = ground arith in absurd bad
          | inr (days, k) ↦ elim (Option-cases (atoi days)) [
            | inl m ↦ ground arith
            | inr (n, m) ↦ ground arith
          ]
        ]
      ]

  module _ (atoi_itoa : (n : ℤ) → atoi (itoa n) ≡ some n) where
    -- A controller that is there.
    abbrev pub AreSingle : Option RetentionController → Type 0
    AreSingle none = Unit
    AreSingle (some rc) = IsSingle rc

    abbrev pub AreApplied :
        RetentionSettings → Option RetentionController → Option RetentionController → Type 0
    AreApplied s none none = Unit
    AreApplied s (some rc) (some rc') = IsApplied s rc rc'
    AreApplied s _ _ = ⊥

    -- The answers of `UpdateRetention` for a policy.
    pub data Updated (f : SaveFaults) (s : RetentionSettings) (db : Db)
        (rc : Option RetentionController)
        (r : Option (SettingsReply × Db × Option RetentionController)) : Type 0 where
      unchanged : r ≡ some (bad_request, db, rc) → in_range s.days ≡ false → Updated f s db rc r
      failed :
          r ≡ some (server_error, db, rc)
          → f.begin || f.enabled || f.days || f.commit ≡ true
          → Updated f s db rc r
      current :
          (db' : Db) (rc' : Option RetentionController)
          → r ≡ some (stored s, db', rc')
          → load_retention_settings atoi itoa false false db' ≡ some s
          → AreApplied s rc rc'
          → Updated f s db rc r

-- After a token was regenerated and stored, a request passes exactly if it carries that token.
pub regenerate_api_token-passes :
    (token provided : String) (db : Db)
    → token ≢ ""
    → (api_token_required (api_token false (regenerate_api_token false (some token) db).1) provided
        ≡ passes)
      ↔ (provided ≡ token)
unfolding api_token_required api_token get_setting regenerate_api_token
regenerate_api_token-passes token provided db some_text = ground (
  arith,
  lookup-insert setting_key_api_token setting_key_api_token token db.settings,
  ==_iff token "",
  ==_iff provided token,
)
