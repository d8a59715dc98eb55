-- ===== src/Cmd/Tests.antt =====
-- The two commands on concrete arguments.
use net_bird_audit.Prelude.{
  ◌≡◌, ◌≢◌, arith, refl, codes, true, [], ◌∷◌, none, some, if◌then◌else◌, ◌==◌, text_eq, text_beq,
}
use net_bird_audit.Prelude.Int.{pos, int64}
use net_bird_audit.Db.Setup.{open_db}
use net_bird_audit.Text.Decimal.Scan.{is_digit}
use net_bird_audit.Netbird.{new_client}
use net_bird_audit.Db.Collation.{Collation, binary}
use net_bird_audit.Db.Tables.{empty_db}
use net_bird_audit.Server.Admin.Numbers.{NoDigit}
use net_bird_audit.Server.Types.{Request}
use net_bird_audit.Server.SensorApi.{SensorFlow, sensor_flows}
use net_bird_audit.Server.SensorApi.Laws.{after_reports}
use net_bird_audit.Server.Lifetime.{new_server, Round, start_poll}
use net_bird_audit.Cmd.AuditServer
use net_bird_audit.Cmd.AuditServer.{Environment, Given, serves, config_of, seconds}
use net_bird_audit.Cmd.AuditServer.Laws.{main-sensor_flows, main-panics}
use net_bird_audit.Cmd.AuditSensor

instance abbrev by_bytes : Collation
by_bytes = binary

abbrev dsn_only : Environment
dsn_only name = if name == codes "MYSQL_DSN" then codes "audit@/audit" else []

abbrev healthy : Given
healthy = record {
  args = codes "audit-server" ∷ [];
  first_line = none;
  generate = λ password cost. none;
  secret_bytes = none;
  db_opened = true;
  db_pinged = true;
  migrated = true;
}

abbrev keyless : Request
keyless = record {
  method = codes "POST";
  remote_addr = codes "10.0.0.7:51234";
  cookie = λ name. none;
  form = λ name. [];
  header = λ name. [];
}

it_serves : AuditServer.main dsn_only healthy ≡ serves (config_of dsn_only) (new_client [] [])
unfolding AuditServer.main text_beq AuditServer.env open_db
it_serves = refl

abbrev first_report : SensorFlow
first_report = record {
  flow_key = codes "k1";
  started_at = 10;
  last_seen_at = 20;
  src_ip = codes "100.64.0.1";
  dst_ip = codes "10.0.0.9";
  protocol = codes "tcp";
  src_port = 40000;
  dst_port = 443;
  bytes_tx = 100;
  bytes_rx = 200;
  packets_tx = 1;
  packets_rx = 2;
  ended = true;
}

main-sensor_flows_example :
    ((sensor_flows
        (some (first_report ∷ []))
        keyless
        (new_server (config_of dsn_only), empty_db)).0.status
      ≡ 200)
    × ((sensor_flows
          (some (first_report ∷ []))
          keyless
          (new_server (config_of dsn_only), empty_db)).1
        ≡ (new_server (config_of dsn_only), after_reports (first_report ∷ []) empty_db))
unfolding text_beq
main-sensor_flows_example =
    main-sensor_flows dsn_only healthy (config_of dsn_only) (new_client [] []) (first_report ∷ [])
      keyless empty_db it_serves refl refl refl

-- A flag with its value behind `=`, and one with its value as the next argument.
sensor_flags :
    AuditSensor.main
      (λ t. some (pos 5))
      (codes "-sensor-key" ∷ codes "k" ∷ codes "--idle=5" ∷ codes "rest" ∷ [])
    ≡ some (record {
      interface = codes "auto";
      object_path = codes "/opt/netbird-audit/bpf/audit.bpf.o";
      audit_url = codes "http://127.0.0.1:9080/api/v1/flows";
      sensor_key = codes "k";
      overlay_cidr = codes "100.64.0.0/10";
      interval = pos 10000000000;
      idle_timeout = pos 5000000000;
    })
unfolding AuditSensor.main text_beq seconds int64
sensor_flags = refl

no_key : AuditSensor.main (λ t. some (pos 5)) (codes "-idle" ∷ codes "5" ∷ []) ≡ none
unfolding AuditSensor.main text_beq
no_key = refl

no_interval : seconds (pos 0) ≡ pos 0
unfolding seconds int64
no_interval = refl

abbrev in_words : Environment
in_words name =
    if name == codes "MYSQL_DSN"
    then codes "audit@/audit"
    else if name == codes "POLL_SECONDS"
    then codes "ten"
    else []

abbrev no_round : Round
no_round = record {
  db_time = λ n. 0;
  now = 1;
  since = 1;
  later = 1;
  users = none;
  peers = none;
  resources = none;
}

in_words_serves : AuditServer.main in_words healthy ≡ serves (config_of in_words) (new_client [] [])
unfolding AuditServer.main text_beq AuditServer.env open_db
in_words_serves = refl

in_words-NoDigit : NoDigit (in_words (codes "POLL_SECONDS"))
unfolding is_digit text_beq
in_words-NoDigit = (refl, (refl, (refl, tt)))

in_words_set : in_words (codes "POLL_SECONDS") ≢ []
unfolding text_beq
in_words_set e = ground (arith, e)

main-panics_example : start_poll no_round [] (new_server (config_of in_words), empty_db) ≡ none
main-panics_example =
    main-panics in_words healthy (config_of in_words) (new_client [] []) no_round [] empty_db
      in_words_serves in_words_set in_words-NoDigit
