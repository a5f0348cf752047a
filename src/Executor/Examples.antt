-- ===== src/Executor/Examples.antt =====
-- A server where every command stands in /bin, and ends well.
use webhook_ui.Common.{◌≡◌, true, false, ◌↔◌, some, inl, inr, [], ◌∷◌, ◌++◌, Bytes, bytes}
use webhook_ui.Executor.{Platform, is_allowed}
use webhook_ui.Executor.Whitelist.{IsResolved, IsWithinSome, is_allowed_iff}

abbrev pub test_platform : Platform
test_platform = record {
  fields = λ s. s ∷ [];
  trim_space = λ s. s;
  look_path = λ s. some (bytes "/bin/" ++ s);
  abs = λ s. some s;
  separator = b'/';
  write_script = λ s. inr (bytes "/tmp/script-1");
  run = λ argv env dir. record {
    output = [];
    error = [];
    success = true;
    canceled = false;
    timed_out = false;
  };
  dial = λ host. inl (bytes "no route to host");
  run_ssh_session = λ client command stdin. record {
    output = [];
    error = [];
    success = true;
    canceled = false;
    timed_out = false;
  };
  quote_error = bytes "invalid argument";
}

is_allowed_iff_example :
    (is_allowed test_platform (bytes "/usr/bin" ∷ bytes "/bin" ∷ []) (bytes "date") ≡ true) ↔ (
      (path : Bytes) × IsResolved test_platform (bytes "date") path
      × IsWithinSome b'/' (bytes "/usr/bin" ∷ bytes "/bin" ∷ []) path)
is_allowed_iff_example =
    is_allowed_iff test_platform (bytes "/usr/bin" ∷ bytes "/bin" ∷ []) (bytes "date")
