-- ===== src/Resources/Stored.antt =====
-- What is stored is valid, and what a hook used when the hooks were read is not deleted.
use webhook_ui.Common.{
  ◌≡◌, ◌≢◌, ◌⊎◌, inl, inr, String, Bool, ◌||◌, Option, none, some, List, [], ◌∷◌, Map, lookup,
  delete, lookup-insert, lookup-delete, lookup-adjust, ◌==◌, ==_iff, string_eq, nat_eq,
  if◌then◌else◌, pos, arith, Option-cases, Bool-cases, List-cases,
}
use webhook_ui.Models.{Hook, Script, SshHost, validate_script, validate_host, target_os_linux}
use webhook_ui.Store.{Db}
use webhook_ui.Resources.{
  deleted, insert_script, create_script, update_script, script_users, delete_script, insert_host,
  create_host, update_host, host_users, delete_host, is_zero,
}

-- Each stored script and host passes its validation.
pub record IsStocked (db : Db) : Type 0 where
  pub scripts :
      (id : String) (s : Script) → lookup id db.scripts ≡ some s → validate_script s ≡ none
  pub hosts : (id : String) (h : SshHost) → lookup id db.ssh_hosts ≡ some h → validate_host h ≡ none

insert_script-IsStocked :
    (fails : Bool) (s : Script) (db : Db)
    → validate_script s ≡ none
    → IsStocked db
    → IsStocked (insert_script fails s db).1
unfolding insert_script
insert_script-IsStocked fails s db good v = record {
  scripts = λ id t h. ground (arith, lookup-insert id s.id s db.scripts, v.scripts id t);
  hosts = λ id t h. ground (arith, v.hosts id t);
}

create_script-IsStocked :
    (fails : Bool) (fresh_id : String) (body : Option Script) (db : Db)
    → IsStocked db
    → IsStocked (create_script fails fresh_id body db).1
unfolding create_script
create_script-IsStocked fails fresh_id none db v = v
create_script-IsStocked fails fresh_id (some body) db v =
    let s : Script = record body { id = if body.id == "" then fresh_id else body.id } in
    elim (Option-cases (validate_script s)) [
      | inl e ↦ rw (e, create_script) (insert_script-IsStocked fails s db e v)
      | inr (x, e) ↦ rw (e, create_script) v
    ]

update_script-IsStocked :
    (fails : Bool) (id : String) (body : Option Script) (db : Db)
    → IsStocked db
    → IsStocked (update_script fails id body db).1
unfolding update_script
update_script-IsStocked fails id none db v = v
update_script-IsStocked fails id (some body) db v = record {
  scripts = λ j t h. ground (
    arith,
    v.scripts j t,
    lookup-adjust j id (λ (x : Script). record body { id = id }) db.scripts,
  );
  hosts = λ j t h. ground (arith, v.hosts j t);
}

delete_script-IsStocked :
    (f g : Bool) (id : String) (seen db : Db)
    → IsStocked db
    → IsStocked (delete_script f g id seen db).1
unfolding delete_script
delete_script-IsStocked f g id seen db v = record {
  scripts = λ j t h. ground (arith, v.scripts j t, lookup-delete j id db.scripts);
  hosts = λ j t h. ground (arith, v.hosts j t);
}

insert_host-IsStocked :
    (fails : Bool) (host : SshHost) (db : Db)
    → validate_host host ≡ none
    → IsStocked db
    → IsStocked (insert_host fails host db).1
unfolding insert_host
insert_host-IsStocked fails host db good v = record {
  scripts = λ id t h. ground (arith, v.scripts id t);
  hosts = λ id t h. ground (arith, lookup-insert id host.id host db.ssh_hosts, v.hosts id t);
}

create_host-IsStocked :
    (fails : Bool) (fresh_id : String) (body : Option SshHost) (db : Db)
    → IsStocked db
    → IsStocked (create_host fails fresh_id body db).1
unfolding create_host
create_host-IsStocked fails fresh_id none db v = v
create_host-IsStocked fails fresh_id (some body) db v =
    let host : SshHost = record body {
      id = fresh_id;
      port = if is_zero body.port then pos 22 else body.port;
      target_os = if body.target_os == "" then target_os_linux else body.target_os;
    } in
    elim (Option-cases (validate_host host)) [
      | inl e ↦ rw (e, create_host) (insert_host-IsStocked fails host db e v)
      | inr (x, e) ↦ rw (e, create_host) v
    ]

update_host-IsStocked :
    (fails : Bool) (id : String) (body : Option SshHost) (db : Db)
    → IsStocked db
    → IsStocked (update_host fails id body db).1
unfolding update_host
update_host-IsStocked fails id none db v = v
update_host-IsStocked fails id (some body) db v =
    let host : SshHost = record body {
      id = id;
      target_os = if body.target_os == "" then target_os_linux else body.target_os;
    } in
    record {
      scripts = λ j t h. ground (arith, v.scripts j t);
      hosts = λ j t h.
          ground (arith, v.hosts j t, lookup-adjust j id (λ (x : SshHost). host) db.ssh_hosts);
    }

delete_host-IsStocked :
    (f g : Bool) (id : String) (seen db : Db)
    → IsStocked db
    → IsStocked (delete_host f g id seen db).1
unfolding delete_host
delete_host-IsStocked f g id seen db v = record {
  scripts = λ j t h. ground (arith, v.scripts j t);
  hosts = λ j t h. ground (arith, v.hosts j t, lookup-delete j id db.ssh_hosts);
}

pub data Request : Type 0 where
  creates_script updates_script : (fails : Bool) → String → Option Script → Request
  creates_host updates_host : (fails : Bool) → String → Option SshHost → Request
  deletes_script deletes_host : (select_fails write_fails : Bool) → String → (seen : Db) → Request

abbrev pub serve : Request → Db → Db
serve (creates_script f i b) db = (create_script f i b db).1
serve (updates_script f i b) db = (update_script f i b db).1
serve (deletes_script f g i seen) db = (delete_script f g i seen db).1
serve (creates_host f i b) db = (create_host f i b db).1
serve (updates_host f i b) db = (update_host f i b db).1
serve (deletes_host f g i seen) db = (delete_host f g i seen db).1

unfoldable pub serve_all : List Request → Db → Db
serve_all [] db = db
serve_all (r ∷ rs) db = serve_all rs (serve r db)

serve-IsStocked : (r : Request) (db : Db) → IsStocked db → IsStocked (serve r db)
serve-IsStocked (creates_script f i b) db v = create_script-IsStocked f i b db v
serve-IsStocked (updates_script f i b) db v = update_script-IsStocked f i b db v
serve-IsStocked (deletes_script f g i seen) db v = delete_script-IsStocked f g i seen db v
serve-IsStocked (creates_host f i b) db v = create_host-IsStocked f i b db v
serve-IsStocked (updates_host f i b) db v = update_host-IsStocked f i b db v
serve-IsStocked (deletes_host f g i seen) db v = delete_host-IsStocked f g i seen db v

-- From a database whose scripts and hosts all pass their validation, whatever sequence of Create,
-- Update and Delete requests for scripts and hosts is served and whichever statements fail, those
-- that are stored still all pass it.
pub serve_all-IsStocked : (rs : List Request) (db : Db) → IsStocked db → IsStocked (serve_all rs db)
unfolding serve_all
serve_all-IsStocked [] db v = v
serve_all-IsStocked (r ∷ rs) db v = serve_all-IsStocked rs (serve r db) (serve-IsStocked r db v)

script_users_none :
    (id j : String) (hooks : Map String Hook) (h : Hook)
    → script_users id hooks ≡ []
    → lookup j hooks ≡ some h
    → h.script_id ≢ id
unfolding script_users lookup
script_users_none id j [] h e at k = cc
script_users_none id j ((i, g) ∷ hooks) h e at k =
    ground (arith, script_users_none id j hooks h, ==_iff h.script_id id)

host_users_none :
    (id j : String) (hooks : Map String Hook) (h : Hook)
    → host_users id hooks ≡ []
    → lookup j hooks ≡ some h
    → h.ssh_host_id ≢ id
unfolding host_users lookup
host_users_none id j [] h e at k = cc
host_users_none id j ((i, g) ∷ hooks) h e at k =
    ground (arith, host_users_none id j hooks h, ==_iff h.ssh_host_id id)

-- A script is deleted only if, when the hooks were read, no stored hook ran it; then it alone is
-- gone. Any other answer leaves the database as it was.
pub delete_script_lem :
    (f g : Bool) (id : String) (seen db : Db)
    → (((delete_script f g id seen db).0 ≡ deleted)
        × ((j : String) (h : Hook) → lookup j seen.hooks ≡ some h → h.script_id ≢ id)
        × ((delete_script f g id seen db).1 ≡ record db { scripts = delete id db.scripts }))
      ⊎ (((delete_script f g id seen db).0 ≢ deleted) × ((delete_script f g id seen db).1 ≡ db))
unfolding delete_script
delete_script_lem f g id seen db = elim (List-cases (script_users id seen.hooks)) [
  | inr (x, xs, e) ↦ inr (λ d. ground arith, ground arith)
  | inl e ↦ elim (Bool-cases (f || g)) [
    | inl b ↦ inr (λ d. ground arith, ground arith)
    | inr b ↦ elim (Option-cases (lookup id db.scripts)) [
      | inl k ↦ inr (λ d. ground arith, ground arith)
      | inr (s, k) ↦
          inl (ground arith, λ j h at. script_users_none id j seen.hooks h e at, ground arith)
    ]
  ]
]

-- A host is deleted only if, when the hooks were read, no stored hook ran on it; then it alone is
-- gone. Any other answer leaves the database as it was.
pub delete_host_lem :
    (f g : Bool) (id : String) (seen db : Db)
    → (((delete_host f g id seen db).0 ≡ deleted)
        × ((j : String) (h : Hook) → lookup j seen.hooks ≡ some h → h.ssh_host_id ≢ id)
        × ((delete_host f g id seen db).1 ≡ record db { ssh_hosts = delete id db.ssh_hosts }))
      ⊎ (((delete_host f g id seen db).0 ≢ deleted) × ((delete_host f g id seen db).1 ≡ db))
unfolding delete_host
delete_host_lem f g id seen db = elim (List-cases (host_users id seen.hooks)) [
  | inr (x, xs, e) ↦ inr (λ d. ground arith, ground arith)
  | inl e ↦ elim (Bool-cases (f || g)) [
    | inl b ↦ inr (λ d. ground arith, ground arith)
    | inr b ↦ elim (Option-cases (lookup id db.ssh_hosts)) [
      | inl k ↦ inr (λ d. ground arith, ground arith)
      | inr (s, k) ↦
          inl (ground arith, λ j h at. host_users_none id j seen.hooks h e at, ground arith)
    ]
  ]
]
