-- ===== src/Store.antt =====
-- The SQLite database behind internal/database: the tables that the handlers read and write.
--
-- A table is keyed by its primary key; `last_execution` is the AUTOINCREMENT counter. Times are
-- numbers. A statement that may fail takes a flag that says whether it does: the handlers are
-- proved for every choice of these flags.
use webhook_ui.Common.{
  ℕ, ◌+◌, String, Bool, true, false, Option, List, [], nat_eq, string_eq, Map, insert, adjust,
  Bytes,
}
use webhook_ui.Models.{Status, Handoff, ExecTarget, Hook, Script, SshHost}

-- Why a handoff to the successor failed.
pub data ChainError : Type 0 where
  sql_error hook_unavailable host_unavailable bad_path hook_busy queue_full request_error :
      ChainError
  loop_refused : String → ChainError

-- The column `success_error`, by the text that it holds.
pub data HandoffNote : Type 0 where
  no_note service_restarted : HandoffNote
  failed_with : ChainError → HandoffNote

-- `chain_path` is the JSON list of hook ids; `none` is a text that does not parse.
pub record Execution : Type 0 where
  pub hook_id : String
  pub trigger_source : String
  pub exec_target : Option ExecTarget
  pub status : Status
  pub output : Bytes
  pub error : Bytes
  pub started_at : ℕ
  pub finished_at : Option ℕ
  pub parent_execution_id : ℕ
  pub chain_path : Option (List String)
  pub success_hook_id : String
  pub success_body : String
  pub success_status : Handoff
  pub success_error : HandoffNote
  pub success_execution_id : ℕ
  pub success_attempt : ℕ

pub data Stream : Type 0 where
  stdout stderr : Stream

pub record LogRow : Type 0 where
  pub id : ℕ
  pub execution_id : ℕ
  pub seq : ℕ
  pub stream : Stream
  pub chunk : Bytes

pub record Db : Type 0 where
  pub hooks : Map String Hook
  pub scripts : Map String Script
  pub ssh_hosts : Map String SshHost
  pub executions : Map ℕ Execution
  pub last_execution : ℕ
  pub logs : List LogRow
  pub last_log : ℕ
  pub settings : Map String String

abbrev pub empty_db : Db
empty_db = record {
  hooks = [];
  scripts = [];
  ssh_hosts = [];
  executions = [];
  last_execution = 0;
  logs = [];
  last_log = 0;
  settings = [];
}

-- INSERT INTO executions: the new row gets the next id.
unfoldable pub insert_execution : Execution → Db → ℕ × Db
insert_execution e db = (
  db.last_execution + 1,
  record db {
    executions = insert (db.last_execution + 1) e db.executions;
    last_execution = db.last_execution + 1;
  },
)

-- UPDATE executions … WHERE id = ?
unfoldable pub update_execution : ℕ → (Execution → Execution) → Db → Db
update_execution id f db = record db { executions = adjust id f db.executions }

abbrev pub is_queued_or_running : Status → Bool
is_queued_or_running Status.queued = true
is_queued_or_running Status.running = true
is_queued_or_running _ = false
