-- ===== src/Hooks.antt =====
-- internal/handlers/hook.go, and validateSuccessTarget of internal/handlers/success_chain.go: the
-- stored hooks and the chains that their success targets form.
--
-- A handler answers by the status code; its `Faults` say which statements fail. Validation and
-- write stand in one transaction, so a handler is one step on the hooks; the host is looked up
-- before it.
pub mod Graph
pub mod Acyclic
pub mod Handlers
mod Examples
use webhook_ui.Common.{
  ℕ, zero, suc, ◌+◌, String, Bool, true, false, not, ◌&&◌, ◌||◌, Option, none, some, List, [], ◌∷◌,
  length, ◌==◌, nat_eq, string_eq, if◌then◌else◌, Map, lookup, insert, delete, adjust,
}
use webhook_ui.Models.{Hook, HookError, validate_hook, apply_timeout_default, contains}
use webhook_ui.Store.{Db}

pub data Walk : Type 0 where
  ends : Walk
  cycle missing : String → Walk
  out_of_fuel : Walk

-- The loop of validateSuccessTarget from `id`; `fails` says for which id the query fails.
unfoldable pub walk : ℕ → (String → Bool) → Map String Hook → List String → String → Walk
unfolding contains
walk zero fails hooks seen id = out_of_fuel
walk (suc fuel) fails hooks seen id =
    if id == ""
    then ends
    else if contains seen id
    then cycle id
    else if fails id
    then missing id
    else elim (lookup id hooks) [
      | none ↦ missing id
      | some next ↦ walk fuel fails hooks (id ∷ seen) next.success_hook_id
    ]

-- One round for each row, one for an id that is not there, and one for the end.
unfoldable pub validate_success_target : (String → Bool) → Map String Hook → Hook → Walk
validate_success_target fails hooks hook =
    walk (length hooks + 2) fails hooks (hook.id ∷ []) hook.success_hook_id

pub data Reply : Type 0 where
  created stored : Hook → Reply
  deleted : Reply
  bad_request not_found conflict server_error : Reply

-- checkSSHHostExists; `true` is the nil error.
unfoldable pub check_ssh_host_exists : Bool → String → Db → Bool
check_ssh_host_exists fails id db =
    if id == ""
    then true
    else if fails
    then false
    else elim (lookup id db.ssh_hosts) [ none ↦ false | some _ ↦ true ]

pub record HookFaults : Type 0 where
  pub select_host : Bool
  pub begin : Bool
  pub walk : String → Bool
  pub write : Bool
  pub commit : Bool

abbrev pub is_end : Walk → Bool
is_end ends = true
is_end _ = false

-- INSERT INTO hooks: the id is the primary key.
unfoldable pub insert_hook : HookFaults → Hook → Db → Reply × Db
insert_hook f hook db = elim (lookup hook.id db.hooks) [
  | some _ ↦ (server_error, db)
  | none ↦
      if f.write || f.commit
      then (server_error, db)
      else (created hook, record db { hooks = insert hook.id hook db.hooks })
]

-- What Create fills in before it validates.
abbrev pub with_defaults : String → Hook → Hook
with_defaults fresh_id h = apply_timeout_default (record h {
  id = if h.id == "" then fresh_id else h.id;
  hmac_algorithm = if h.hmac_algorithm == "" then "sha256" else h.hmac_algorithm;
})

-- UPDATE hooks … WHERE id = ?, and the answer by the number of rows.
unfoldable pub update_hook : HookFaults → Hook → Db → Reply × Db
update_hook f hook db = if f.write then (server_error, db) else elim (lookup hook.id db.hooks) [
  | none ↦ (not_found, db)
  | some _ ↦
      if f.commit
      then (server_error, db)
      else (stored hook, record db { hooks = adjust hook.id (λ _. hook) db.hooks })
]

module _ (json_valid : String → Bool) where
  -- The guards that Create and Update share, up to the write.
  unfoldable pub checked : HookFaults → Hook → Db → Reply × Db → Reply × Db
  checked f hook db write = elim (validate_hook json_valid hook) [
    | some _ ↦ (bad_request, db)
    | none ↦
        if not (check_ssh_host_exists f.select_host hook.ssh_host_id db)
        then (bad_request, db)
        else if f.begin
        then (server_error, db)
        else if is_end (validate_success_target f.walk db.hooks hook)
        then write
        else (bad_request, db)
  ]

  -- (*HookHandler).Create; `none` is a body that does not parse, `fresh_id` the head of a new UUID.
  unfoldable pub create : HookFaults → String → Option Hook → Db → Reply × Db
  create f fresh_id none db = (bad_request, db)
  create f fresh_id (some body) db =
      let hook = with_defaults fresh_id body in checked f hook db (insert_hook f hook db)

  -- (*HookHandler).Update
  unfoldable pub update : HookFaults → String → Option Hook → Db → Reply × Db
  update f id none db = (bad_request, db)
  update f id (some body) db =
      let hook = apply_timeout_default (record body { id = id }) in
      checked f hook db (update_hook f hook db)

-- SELECT EXISTS(SELECT 1 FROM hooks WHERE success_hook_id = ?)
unfoldable pub is_referenced : String → Map String Hook → Bool
is_referenced id [] = false
is_referenced id ((_, h) ∷ rest) = h.success_hook_id == id || is_referenced id rest

-- (*HookHandler).Delete
unfoldable pub remove : HookFaults → Bool → String → Db → Reply × Db
unfolding is_referenced
remove f select_fails id db =
    if f.begin || select_fails
    then (server_error, db)
    else if is_referenced id db.hooks
    then (conflict, db)
    else if f.write
    then (server_error, db)
    else elim (lookup id db.hooks) [
      | none ↦ (not_found, db)
      | some _ ↦
          if f.commit
          then (server_error, db)
          else (deleted, record db { hooks = delete id db.hooks })
    ]
