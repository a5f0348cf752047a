-- ===== src/Settings/Examples.antt =====
-- A policy of two weeks, and a token.
use webhook_ui.Common.{
  ℕ, ◌≡◌, ◌≢◌, ◌↔◌, refl, lookup, insert, String, true, false, string_eq, Option, some, ℤ, pos,
  negsuc, zero, suc,
}
use webhook_ui.Store.{Db, empty_db}
use webhook_ui.Settings.{
  RetentionSettings, in_range, SaveFaults, get_setting, load_retention_settings, upsert,
  setting_key_retention_days, passes, api_token_required, api_token, regenerate_api_token,
}
use webhook_ui.Settings.Laws.{load_retention_settings-in_range, regenerate_api_token-passes}

-- Stand-ins for `strconv`: a number is a text of two strokes for each one, and one more below zero.

strokes : ℕ → String
strokes zero = ""
strokes (suc n) = String.◌∷◌ "1" (String.◌∷◌ "1" (strokes n))

itoa : ℤ → String
unfolding strokes
itoa (pos n) = strokes n
itoa (negsuc n) = String.◌∷◌ "0" (strokes n)

further : ℤ → ℤ
further (pos n) = pos (suc n)
further (negsuc n) = negsuc (suc n)

read : String → ℤ
unfolding further
read String.[] = pos 0
read (String.◌∷◌ c String.[]) = negsuc 0
read (String.◌∷◌ c (String.◌∷◌ d s)) = further (read s)

atoi : String → Option ℤ
unfolding read
atoi s = some (read s)

abbrev two_weeks : RetentionSettings
two_weeks = record { enabled = true; days = pos 14 }

abbrev no_faults : SaveFaults
no_faults = record { begin = false; enabled = false; days = false; commit = false }

abbrev stored_by_hand : Db
stored_by_hand = upsert setting_key_retention_days "11" empty_db

loaded :
    load_retention_settings atoi itoa false false stored_by_hand
    ≡ some (record { enabled = false; days = pos 1 })
unfolding load_retention_settings atoi read further get_setting lookup insert
loaded = refl

load_retention_settings-in_range_example : in_range (pos 1) ≡ true
load_retention_settings-in_range_example =
    load_retention_settings-in_range atoi itoa false false stored_by_hand loaded

abbrev fresh_token : String
fresh_token = "t0"

abbrev guess : String
guess = "t1"

some_text : fresh_token ≢ ""
some_text e = cc

regenerate_api_token-passes_example :
    (api_token_required
        (api_token false (regenerate_api_token false (some fresh_token) empty_db).1)
        guess
      ≡ passes)
    ↔ (guess ≡ fresh_token)
regenerate_api_token-passes_example =
    regenerate_api_token-passes fresh_token guess empty_db some_text
