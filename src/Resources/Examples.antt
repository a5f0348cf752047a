-- ===== src/Resources/Examples.antt =====
-- A host with the defaults filled in, and a script that no hook uses.
use webhook_ui.Common.{
  ◌≡◌, ◌≢◌, ◌⊎◌, String, false, some, List, [], ◌∷◌, lookup, delete, string_eq, pos,
}
use webhook_ui.Models.{Hook, Script, SshHost}
use webhook_ui.Store.{Db, empty_db}
use webhook_ui.Resources.{deleted, delete_script, delete_host}
use webhook_ui.Resources.Stored.{
  IsStocked, Request, creates_script, creates_host, updates_host, deletes_script, serve_all,
  serve_all-IsStocked, delete_script_lem, delete_host_lem,
}

abbrev backup : Script
backup = record {
  id = "";
  name = "Backup";
  interpreter = "bash";
  content = "tar c /";
  description = "";
}

abbrev build_host : SshHost
build_host = record {
  id = "";
  name = "build";
  host = "10.0.0.2";
  port = pos 0;
  user = "ci";
  auth_type = "key";
  target_os = "";
  credential = "k";
  host_key = "";
}

abbrev requests : List Request
requests =
    creates_script false "s1" (some backup)
    ∷ creates_host false "h1" (some build_host)
    ∷ updates_host false "h1" (some build_host)
    ∷ deletes_script false false "s1" empty_db
    ∷ []

empty-IsStocked : IsStocked empty_db
unfolding lookup
empty-IsStocked = record { scripts = λ id s h. cc; hosts = λ id s h. cc }

serve_all-IsStocked_example : IsStocked (serve_all requests empty_db)
serve_all-IsStocked_example = serve_all-IsStocked requests empty_db empty-IsStocked

abbrev one_script : Db
one_script = record empty_db { scripts = ("s1", backup) ∷ [] }

delete_script_lem_example :
    (((delete_script false false "s1" one_script one_script).0 ≡ deleted)
      × ((j : String) (h : Hook) → lookup j one_script.hooks ≡ some h → h.script_id ≢ "s1")
      × ((delete_script false false "s1" one_script one_script).1
          ≡ record one_script { scripts = delete "s1" one_script.scripts }))
    ⊎ (((delete_script false false "s1" one_script one_script).0 ≢ deleted)
        × ((delete_script false false "s1" one_script one_script).1 ≡ one_script))
delete_script_lem_example = delete_script_lem false false "s1" one_script one_script

abbrev one_host : Db
one_host = record empty_db { ssh_hosts = ("h1", build_host) ∷ [] }

delete_host_lem_example :
    (((delete_host false false "h1" one_host one_host).0 ≡ deleted)
      × ((j : String) (h : Hook) → lookup j one_host.hooks ≡ some h → h.ssh_host_id ≢ "h1")
      × ((delete_host false false "h1" one_host one_host).1
          ≡ record one_host { ssh_hosts = delete "h1" one_host.ssh_hosts }))
    ⊎ (((delete_host false false "h1" one_host one_host).0 ≢ deleted)
        × ((delete_host false false "h1" one_host one_host).1 ≡ one_host))
delete_host_lem_example = delete_host_lem false false "h1" one_host one_host
