-- ===== src/Models/Validation.antt =====
-- What a validated hook, script or host satisfies.
use webhook_ui.Common.{
  ℕ, ◌≤◌, String, ◌≡◌, refl, ◌≢◌, ◌↔◌, ◌⊎◌, Bool, true, false, not, ◌&&◌, ◌||◌, none, some, ==_iff,
  string_eq, ℤ, pos, negsuc, is_below, is_above, arith,
}
use webhook_ui.Models.{
  Hook, SshHost, HookError, validate_hook, apply_timeout_default, contains, target_os_linux,
  target_os_windows, is_valid_interpreter, is_interpreter_for_os, validate_host,
}

-- What the rest of the program relies on in a stored hook.
pub record IsValidHook (json_valid : String → Bool) (h : Hook) : Type 0 where
  pub has_id : h.id ≢ ""
  pub has_name : h.name ≢ ""
  -- exactly one of the command and the script
  pub one_action : ((h.command ≡ "") × (h.script_id ≢ "")) ⊎ ((h.command ≢ "") × (h.script_id ≡ ""))
  -- at most one way to authenticate
  pub one_auth : (h.hmac_secret ≡ "") ⊎ (h.trigger_token ≡ "")
  -- a time budget, which only an asynchronous hook may leave unlimited
  pub budget : (n : ℕ) × (h.timeout_seconds ≡ pos n) × ((h.async ≡ true) ⊎ (n ≢ 0))
  pub json_body : h.success_hook_id ≢ "" → json_valid h.success_body ≡ true

module _ (json_valid : String → Bool) where
  budget_of :
      (t : ℤ) (async : Bool)
      → is_below t 0 ≡ false
      → not async && not (is_below t 0 || is_above t 0) ≡ false
      → (n : ℕ) × (t ≡ pos n) × ((async ≡ true) ⊎ (n ≢ 0))
  budget_of (pos n) async h k = (n, refl, ground arith)
  budget_of (negsuc n) async h k = cc

  -- `Validate` accepts exactly the hooks that are valid.
  pub validate_hook-none : (h : Hook) → validate_hook json_valid h ≡ none → IsValidHook json_valid h
  unfolding validate_hook
  validate_hook-none h e = record {
    has_id = ground (arith, ==_iff h.id "");
    has_name = ground (arith, ==_iff h.name "");
    one_action = ground (arith, ==_iff h.command "", ==_iff h.script_id "");
    one_auth = ground (arith, ==_iff h.hmac_secret "", ==_iff h.trigger_token "");
    budget = budget_of h.timeout_seconds h.async (ground arith) (ground arith);
    json_body = λ k. ground (arith, ==_iff h.success_hook_id "");
  }

  pub IsValidHook-validate :
      (h : Hook) → IsValidHook json_valid h → validate_hook json_valid h ≡ none
  unfolding validate_hook
  IsValidHook-validate h v = ground (
    arith,
    ==_iff h.id "",
    ==_iff h.name "",
    ==_iff h.command "",
    ==_iff h.script_id "",
    ==_iff h.hmac_secret "",
    ==_iff h.trigger_token "",
    ==_iff h.success_hook_id "",
  )

  -- `Validate` accepts a hook exactly if it has an id and a name, one of command and script, at
  -- most one way to authenticate, a budget that only an asynchronous hook leaves unlimited, and
  -- a JSON body for its successor.
  pub validate_hook_lem :
      (h : Hook) → (validate_hook json_valid h ≡ none) ↔ IsValidHook json_valid h
  validate_hook_lem h = (validate_hook-none h, IsValidHook-validate h)

  -- After `applyTimeoutDefault`, a hook is never refused for an unlimited synchronous budget.
  pub validate-apply_timeout_default :
      (h : Hook)
      → validate_hook json_valid (apply_timeout_default h) ≢ some HookError.unlimited_sync
  unfolding validate_hook apply_timeout_default
  validate-apply_timeout_default h e = ground arith

-- A valid interpreter runs on exactly one of the two kinds of target, and no other one runs on
-- either.
pub interpreter_for_one_os :
    (name : String)
    → (is_interpreter_for_os name target_os_linux || is_interpreter_for_os name target_os_windows
        ≡ is_valid_interpreter name)
      × (is_interpreter_for_os name target_os_linux && is_interpreter_for_os name target_os_windows
          ≡ false)
unfolding is_interpreter_for_os contains
interpreter_for_one_os name = ground arith

-- What a stored host has: a port that fits a TCP header, a supported login and target, and texts
-- that are not empty.
pub record IsValidHost (h : SshHost) : Type 0 where
  pub port : (n : ℕ) × (h.port ≡ pos n) × (1 ≤ n) × (n ≤ 65535)
  pub auth : (h.auth_type ≡ "key") ⊎ (h.auth_type ≡ "password")
  pub target : (h.target_os ≡ target_os_linux) ⊎ (h.target_os ≡ target_os_windows)
  pub named : (h.name ≢ "") × (h.host ≢ "") × (h.user ≢ "") × (h.credential ≢ "")

port_of :
    (p : ℤ)
    → not (is_above p 0) || is_above p 65535 ≡ false
    → (n : ℕ) × (p ≡ pos n) × (1 ≤ n) × (n ≤ 65535)
port_of (pos n) h = (n, refl, ground arith, ground arith)
port_of (negsuc n) h = cc

validate_host-none : (h : SshHost) → validate_host h ≡ none → IsValidHost h
unfolding validate_host
validate_host-none h e = record {
  port = port_of h.port (ground arith);
  auth = ground (arith, ==_iff h.auth_type "key", ==_iff h.auth_type "password");
  target = ground (arith, ==_iff h.target_os "linux", ==_iff h.target_os "windows");
  named =
      ground (arith, ==_iff h.name "", ==_iff h.host "", ==_iff h.user "", ==_iff h.credential "");
}

IsValidHost-validate : (h : SshHost) → IsValidHost h → validate_host h ≡ none
unfolding validate_host
IsValidHost-validate h v =
    let (n, e, lo, hi) = v.port in
    let (name, host, user, credential) = v.named in
    rw e (
      ground (
        arith,
        v.auth,
        v.target,
        ==_iff h.name "",
        ==_iff h.host "",
        ==_iff h.user "",
        ==_iff h.credential "",
        ==_iff h.auth_type "key",
        ==_iff h.auth_type "password",
        ==_iff h.target_os "linux",
        ==_iff h.target_os "windows",
      ))

-- `Validate` accepts a host exactly if its port is between 1 and 65535, its login and its target
-- are among the supported ones, and its name, address, user and credential are not empty.
pub validate_host_lem : (h : SshHost) → (validate_host h ≡ none) ↔ IsValidHost h
validate_host_lem h = (validate_host-none h, IsValidHost-validate h)
