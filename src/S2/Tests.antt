-- ===== src/S2/Tests.antt =====
-- Runs of the sink on concrete inputs: net/s2/src.
use gstsmith_rs.Prelude.{
  ℕ, ◌≡◌, ◌≤◌, refl, true, false, none, some, List, [], ◌∷◌, ◌++◌, length, All, codes, ok, Returns,
}
use gstsmith_rs.S2.Config.{
  ConnectionSettings, default_connection, no_side_effects, Host, domain, url, value, validate,
  load_secret_file,
}
use gstsmith_rs.S2.Config.Checks.{IsConnection, validate-IsConnection}
use gstsmith_rs.S2.Config.Secrets.{lf, load_secret_file-LineEnd}
use gstsmith_rs.S2.Queue.{new, complete, poll_drain, worker_failure}
use gstsmith_rs.S2.Worker.{step, Event, rendered, requested, turned, answered, run}
use gstsmith_rs.S2.Worker.Barrier.Durable.{begin, IsKept, run-IsKept}

abbrev lite : Host
lite = record {
  parse_url = λ t. url (record {
    scheme = codes "https";
    username = [];
    password = none;
    host = some (domain (codes "s2.dev"));
  });
  is_basin_name = λ t. true;
  is_stream_name = λ t. true;
  is_account_endpoint = λ t. true;
  is_basin_endpoint = λ t. true;
  have_one_scheme = λ a b. true;
  is_fencing_token = λ t. true;
  read = λ path. some (codes "secret\n");
  from_utf8 = λ bytes. some bytes;
  access_token = value (codes "token");
}

abbrev connection : ConnectionSettings
connection = record default_connection {
  basin = some (codes "basin");
  stream = some (codes "stream");
  access_token_file = some (codes "file");
  account_endpoint = some (codes "s2.dev");
  basin_endpoint = some (codes "{basin}.s2.dev");
}

validate-IsConnection_example :
    Returns (IsConnection lite connection) (validate lite no_side_effects connection)
validate-IsConnection_example = validate-IsConnection lite no_side_effects connection

connection_accepted :
    validate lite no_side_effects connection
    ≡ ok (record {
      basin = codes "basin";
      stream = codes "stream";
      s2 = record {
        token = codes "secret";
        connection_timeout = connection.connection_timeout;
        request_timeout = connection.request_timeout;
        max_attempts = 3;
        min_base_delay = connection.retry_min_delay;
        max_base_delay = connection.retry_max_delay;
        append_retry_policy = no_side_effects;
        compression = connection.compression;
        endpoints = some (codes "s2.dev", codes "{basin}.s2.dev");
      };
      queue_capacity = 64;
    })
unfolding validate
connection_accepted = refl

load_secret_file-LineEnd_example : load_secret_file lite (codes "file") ≡ ok (codes "secret")
load_secret_file-LineEnd_example =
    load_secret_file-LineEnd lite (codes "file") (codes "secret") (codes "\n") (codes "secret\n")
      refl refl (lf refl) refl

-- Two records, a drain, and the worker up to the flush that sets its flag.
abbrev drained_run : List Event
drained_run =
    rendered 7
    ∷ rendered 8
    ∷ requested
    ∷ turned
    ∷ answered none
    ∷ turned
    ∷ answered none
    ∷ turned
    ∷ answered none
    ∷ []

run-IsKept_example :
    All (IsKept (run drained_run (begin 4))) (run drained_run (begin 4)).joined
    × ((run drained_run (begin 4)).durable ≤ length (run drained_run (begin 4)).submitted)
    × ((rest : List ℕ) × ((run drained_run (begin 4)).submitted ++ rest
          ≡ (run drained_run (begin 4)).accepted))
run-IsKept_example = run-IsKept 4 drained_run

drained_durable :
    ((poll_drain 0 false (run drained_run (begin 4)).queue).0 ≡ some complete)
    × ((run drained_run (begin 4)).durable ≡ 2)
    × ((run drained_run (begin 4)).submitted ≡ 7 ∷ 8 ∷ [])
unfolding poll_drain step new
drained_durable = (refl, refl, refl)

-- A submission fails while a drain waits.
abbrev broken_run : List Event
broken_run = rendered 7 ∷ requested ∷ turned ∷ answered (some "refused") ∷ turned ∷ turned ∷ []

broken_fails :
    (poll_drain 0 false (run broken_run (begin 4)).queue).0 ≡ some (worker_failure "refused")
unfolding poll_drain step new
broken_fails = refl
