-- ===== src/ExecutionLog/Examples.antt =====
-- A log of three bytes, next to the row of another execution.
use webhook_ui.Common.{true, refl, false, [], ◌∷◌, arith, ◌≡◌, none, some, lookup, nat_eq, pos}
use webhook_ui.Models.{Status, Handoff}
use webhook_ui.Store.{Stream, Db, Execution, empty_db, no_note}
use webhook_ui.ExecutionLog.Reading.{LogsPage, LogsReply, logs}
use webhook_ui.ExecutionLog.Reading.Pages.{IsLogsPage, logs-IsLogsPage}
use webhook_ui.ExecutionLog.{ExecutionLogSink, WriteFaults, write_chunk}
use webhook_ui.ExecutionLog.Rows.{rows_of}
use webhook_ui.ExecutionLog.Rolling.{IsLogged}
use webhook_ui.ExecutionLog.Writing.{IsWritten, new_row, write_chunk-IsWritten}

abbrev no_faults : WriteFaults
no_faults = record { insert = false; trims = [] }

abbrev sink : ExecutionLogSink
sink = record { exec_id = 2; limit_bytes = 3; seq = 1; retained = 2 }

abbrev two_rows : Db
two_rows = record empty_db {
  logs =
      record { id = 4; execution_id = 1; seq = 9; stream = Stream.stdout; chunk = 0x78 ∷ [] }
      ∷ record {
        id = 5;
        execution_id = 2;
        seq = 1;
        stream = Stream.stdout;
        chunk = 0x61 ∷ 0x62 ∷ [];
      }
      ∷ [];
  last_log = 5;
}

is_logged : IsLogged sink 5 two_rows.logs
unfolding rows_of
is_logged = record {
  ids = ((omega arith, tt), (tt, tt));
  known = (omega arith, (omega arith, tt));
  ascending = (tt, tt);
  numbered = (omega arith, tt);
  sized = refl;
}

write_chunk-IsWritten_example :
    let out = write_chunk no_faults Stream.stderr (0x63 ∷ 0x64 ∷ []) (sink, two_rows) in
    IsWritten no_faults sink two_rows
      (new_row Stream.stderr (0x63 ∷ 0x64 ∷ []) sink two_rows ∷ [])
      out.0
      out.1
write_chunk-IsWritten_example =
    write_chunk-IsWritten no_faults Stream.stderr (0x63 ∷ 0x64 ∷ []) sink two_rows is_logged

abbrev an_execution : Execution
an_execution = record {
  hook_id = "deploy";
  trigger_source = "192.0.2.1";
  exec_target = none;
  status = Status.running;
  output = [];
  error = [];
  started_at = 5;
  finished_at = none;
  parent_execution_id = 0;
  chain_path = some [];
  success_hook_id = "";
  success_body = "";
  success_status = Handoff.unset;
  success_error = no_note;
  success_execution_id = 0;
  success_attempt = 0;
}

abbrev after_first : Db
after_first = record two_rows { executions = (2, an_execution) ∷ [] }

is_found : lookup 2 after_first.executions ≡ some an_execution
unfolding lookup
is_found = refl

logs-IsLogsPage_example :
    (p : LogsPage) × (logs false false true false 2
        (pos 0)
        after_first
        after_first
        after_first
        after_first
      ≡ LogsReply.page p)
    × IsLogsPage false 2 (pos 0) after_first after_first p
logs-IsLogsPage_example =
    logs-IsLogsPage true false 2 (pos 0) after_first after_first after_first after_first
      an_execution is_found (is_logged.ascending)
