-- ===== src/Tests/Overrides.antt =====
-- The configuration with a few variables set.
use secunda_test.Base.{
  ◌↔◌, ◌≡◌, refl, true, false, none, some, [], pos, arith, if◌then◌else◌, Bool-cases, inl, inr,
}
use secunda_test.Text.{Text, codes, text_eq, text_eq_iff}
use secunda_test.Errors.{wrapped, within, other}
use secunda_test.Errors.Action.{ok, err}
use secunda_test.Config.{Parsers, Env}
use secunda_test.Config.Settings.{Files, Config, load}
use secunda_test.Config.Names.{has_double, load_double}
use secunda_test.Config.Sources.{IsConfigured, load-IsConfigured}
use secunda_test.Tests.Fixtures.{running}
use secunda_test.Base.{sym, ap, ◌∙◌}

abbrev pub parsers : Parsers
parsers = record {
  parse_duration = λ raw. err (other (codes "time: invalid duration"));
  parse_float = λ raw. err (other (codes "strconv.ParseFloat: invalid syntax"));
  num_error = λ f raw. other (codes "invalid syntax");
}

abbrev pub yaml : Config
yaml = record {
  http = record {
    port = pos 8080;
    read_timeout = pos 10;
    write_timeout = pos 10;
    shutdown_timeout = pos 15;
  };
  mysql = record {
    dsn = codes "localhost";
    max_open_conns = pos 25;
    max_idle_conns = pos 25;
    conn_max_lifetime = pos 300;
    conn_max_idle_time = pos 300;
  };
  redis = record {
    addr = codes "localhost:6379";
    password = [];
    db = pos 0;
    task_list_ttl = pos 300;
  };
  auth = record { jwt_secret = codes "change-me"; token_ttl = pos 86400 };
  ratelimit = record { requests_per_minute = pos 100 };
  email = record { failure_threshold = pos 3; open_timeout = pos 10; fail_rate = 0 };
}

abbrev pub files : Files
files = record { read_file = λ path. ok (codes "…"); unmarshal = λ content. ok yaml }

-- One variable.
abbrev pub only : Text → Text → Env
unfolding text_eq
only name value n = if text_eq name n then some value else none

abbrev pub unset : Env
unset n = none

load_port :
    load files parsers (only (codes "APP_HTTP_PORT") (codes "9090")) (codes "config.yaml")
    ≡ ok (record yaml { http = record (yaml.http) { port = pos 9090 } })
unfolding load only running
load_port = refl

load_bad_port :
    load files parsers (only (codes "APP_HTTP_PORT") (codes "http")) (codes "config.yaml")
    ≡ err (
        wrapped
          (codes "apply env overrides: ")
          (wrapped (codes "set APP_HTTP_PORT: ") (other (codes "invalid syntax")) [])
          [])
unfolding load only running within
load_bad_port = refl

only_double :
    (n : Text)
    → has_double n ≡ false
    → only (codes "APP_MYSQL__DSN") (codes "mysql:3306") n ≡ unset n
unfolding only has_double
only_double n h = elim (Bool-cases (text_eq (codes "APP_MYSQL__DSN") n)) [
  | inl same ↦
      let dsn : has_double (codes "APP_MYSQL__DSN") ≡ true = refl in
      let clash : false ≡ true =
        sym h ∙ ap has_double (sym ((text_eq_iff (codes "APP_MYSQL__DSN") n).0 same)) ∙ dsn in
      ground (arith, clash)
  | inr differ ↦ rw differ
]

load_double_example :
    load files parsers (only (codes "APP_MYSQL__DSN") (codes "mysql:3306")) (codes "config.yaml")
    ≡ load files parsers unset (codes "config.yaml")
load_double_example =
    load_double files parsers (only (codes "APP_MYSQL__DSN") (codes "mysql:3306")) unset
      (codes "config.yaml") only_double

abbrev one_port : Config
one_port = record yaml { http = record (yaml.http) { port = pos 9090 } }

load-IsConfigured_example :
    (load files parsers (only (codes "APP_HTTP_PORT") (codes "9090")) (codes "config.yaml")
      ≡ ok one_port)
    ↔ ((content : Text) × (v : Config) × (files.read_file (codes "config.yaml") ≡ ok content)
        × (files.unmarshal content ≡ ok v)
        × IsConfigured parsers (only (codes "APP_HTTP_PORT") (codes "9090")) v one_port)
load-IsConfigured_example =
    load-IsConfigured parsers (only (codes "APP_HTTP_PORT") (codes "9090")) files
      (codes "config.yaml") one_port
