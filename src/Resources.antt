-- ===== src/Resources.antt =====
-- internal/handlers/script.go and internal/handlers/sshhost.go: storing and deleting scripts and
-- hosts.
--
-- A Delete reads the hooks in one statement and deletes in another, with no transaction around them:
-- `seen` is the database that the first one reads, `db` the one that the second one writes. The
-- other handlers make one statement.
pub mod Stored
mod Examples
use webhook_ui.Common.{
  ℕ, String, Bool, true, false, not, ◌&&◌, ◌||◌, Option, none, some, List, [], ◌∷◌, Map, lookup,
  insert, delete, adjust, ◌==◌, string_eq, nat_eq, if◌then◌else◌, ℤ, pos, is_below, is_above,
}
use webhook_ui.Models.{Hook, Script, SshHost, validate_script, validate_host, target_os_linux}
use webhook_ui.Store.{Db}

pub data Reply : Type 0 where
  created stored deleted bad_request not_found server_error : Reply
  -- with the names of the hooks in the way
  conflict : List String → Reply

-- INSERT INTO scripts: the id is the primary key.
unfoldable pub insert_script : Bool → Script → Db → Reply × Db
insert_script fails s db = elim (lookup s.id db.scripts) [
  | some _ ↦ (server_error, db)
  | none ↦
      if fails
      then (server_error, db)
      else (created, record db { scripts = insert s.id s db.scripts })
]

-- `none` is a body that does not parse, `fresh_id` the head of a new UUID.
unfoldable pub create_script : Bool → String → Option Script → Db → Reply × Db
unfolding insert_script
create_script fails fresh_id none db = (bad_request, db)
create_script fails fresh_id (some body) db =
    let s : Script = record body { id = if body.id == "" then fresh_id else body.id } in
    elim (validate_script s) [ some _ ↦ (bad_request, db) | none ↦ insert_script fails s db ]

unfoldable pub update_script : Bool → String → Option Script → Db → Reply × Db
update_script fails id none db = (bad_request, db)
update_script fails id (some body) db =
    let s : Script = record body { id = id } in
    elim (validate_script s) [
      | some _ ↦ (bad_request, db)
      | none ↦ if fails then (server_error, db) else elim (lookup id db.scripts) [
        | none ↦ (not_found, db)
        | some _ ↦ (stored, record db { scripts = adjust id (λ _. s) db.scripts })
      ]
    ]

-- SELECT name FROM hooks WHERE script_id = ?
unfoldable pub script_users : String → Map String Hook → List String
script_users id [] = []
script_users id ((_, h) ∷ hooks) =
    let rest = script_users id hooks in if h.script_id == id then h.name ∷ rest else rest

unfoldable pub delete_script : Bool → Bool → String → (seen db : Db) → Reply × Db
unfolding script_users
delete_script select_fails write_fails id seen db =
    if select_fails then (server_error, db) else elim (script_users id seen.hooks) [
      | name ∷ names ↦ (conflict (name ∷ names), db)
      | [] ↦ if write_fails then (server_error, db) else elim (lookup id db.scripts) [
        | none ↦ (not_found, db)
        | some _ ↦ (deleted, record db { scripts = delete id db.scripts })
      ]
    ]

abbrev pub is_zero : ℤ → Bool
is_zero n = not (is_below n 0) && not (is_above n 0)

unfoldable pub insert_host : Bool → SshHost → Db → Reply × Db
insert_host fails host db = elim (lookup host.id db.ssh_hosts) [
  | some _ ↦ (server_error, db)
  | none ↦
      if fails
      then (server_error, db)
      else (created, record db { ssh_hosts = insert host.id host db.ssh_hosts })
]

unfoldable pub create_host : Bool → String → Option SshHost → Db → Reply × Db
unfolding insert_host
create_host fails fresh_id none db = (bad_request, db)
create_host fails fresh_id (some body) db =
    let host : SshHost = record body {
      id = fresh_id;
      port = if is_zero body.port then pos 22 else body.port;
      target_os = if body.target_os == "" then target_os_linux else body.target_os;
    } in
    elim (validate_host host) [ some _ ↦ (bad_request, db) | none ↦ insert_host fails host db ]

unfoldable pub update_host : Bool → String → Option SshHost → Db → Reply × Db
update_host fails id none db = (bad_request, db)
update_host fails id (some body) db =
    let host : SshHost = record body {
      id = id;
      target_os = if body.target_os == "" then target_os_linux else body.target_os;
    } in
    elim (validate_host host) [
      | some _ ↦ (bad_request, db)
      | none ↦ if fails then (server_error, db) else elim (lookup id db.ssh_hosts) [
        | none ↦ (not_found, db)
        | some _ ↦ (stored, record db { ssh_hosts = adjust id (λ _. host) db.ssh_hosts })
      ]
    ]

-- SELECT name FROM hooks WHERE ssh_host_id = ?
unfoldable pub host_users : String → Map String Hook → List String
host_users id [] = []
host_users id ((_, h) ∷ hooks) =
    let rest = host_users id hooks in if h.ssh_host_id == id then h.name ∷ rest else rest

unfoldable pub delete_host : Bool → Bool → String → (seen db : Db) → Reply × Db
unfolding host_users
delete_host select_fails write_fails id seen db =
    if select_fails then (server_error, db) else elim (host_users id seen.hooks) [
      | name ∷ names ↦ (conflict (name ∷ names), db)
      | [] ↦ if write_fails then (server_error, db) else elim (lookup id db.ssh_hosts) [
        | none ↦ (not_found, db)
        | some _ ↦ (deleted, record db { ssh_hosts = delete id db.ssh_hosts })
      ]
    ]
