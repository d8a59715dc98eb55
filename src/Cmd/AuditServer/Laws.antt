-- ===== src/Cmd/AuditServer/Laws.antt =====
-- The configuration with which cmd/audit-server/main.go starts the server.
use net_bird_audit.Prelude.{
  Text, codes, true, List, [], ◌∷◌, Option, none, some, ◌==◌, nat_eq, text_eq, text_beq_iff, ◌≡◌,
  ◌≢◌, refl, sym, ap, ◌∙◌, arith, inl, inr, Bool-cases, Option-cases,
}
use net_bird_audit.Prelude.Int.{pos, int64}
use net_bird_audit.Db.Collation.{Collation}
use net_bird_audit.Db.Tables.{Db}
use net_bird_audit.Db.Setup.{open_db}
use net_bird_audit.Netbird.{Client, new_client}
use net_bird_audit.Server.Types.{Config, Request}
use net_bird_audit.Server.SensorApi.{SensorFlow, sensor_flows}
use net_bird_audit.Server.SensorApi.Laws.{after_reports, sensor_flows-Authorized}
use net_bird_audit.Server.Admin.Numbers.{NoDigit, parse_int64-NoDigit}
use net_bird_audit.Server.Lifetime.{new_server, Round, start_poll, is_positive}
use net_bird_audit.Cmd.AuditServer.{
  Environment, env, Given, Main, prints, fatal, serves, or_fatal, hash_command, otpauth_command,
  config_of, seconds, serve, with_command, with_args, main,
}

-- The environment has a database, and every start of it succeeds.
abbrev pub Starts : Environment → Given → Type 0
Starts getenv given =
    (getenv (codes "MYSQL_DSN") ≢ [])
    × (given.db_opened ≡ true)
    × (given.db_pinged ≡ true)
    × (given.migrated ≡ true)

abbrev the_client : Environment → Client
the_client getenv =
    new_client (env getenv (codes "NETBIRD_URL") []) (env getenv (codes "NETBIRD_PAT") [])

-- What a run that serves has.
abbrev Serving : Environment → Given → Main → Type 0
Serving getenv given (serves cfg nb) =
    (cfg ≡ config_of getenv) × (nb ≡ the_client getenv) × Starts getenv given
Serving getenv given (prints t) = Unit
Serving getenv given fatal = Unit

env_empty : (getenv : Environment) (k : Text) → env getenv k [] ≡ getenv k
unfolding env
env_empty getenv k = elim (Bool-cases (getenv k == [])) [
  | inl unset ↦ rw unset (sym ((text_beq_iff (getenv k) []).0 unset))
  | inr given ↦ rw given refl
]

serve-Serving : (getenv : Environment) (given : Given) → Serving getenv given (serve getenv given)
unfolding serve open_db
serve-Serving getenv given = elim (Bool-cases (env getenv (codes "MYSQL_DSN") [] == [])) [
  | inl unset ↦ rw unset tt
  | inr dsn ↦ elim (Bool-cases given.db_opened) [
    | inr closed ↦ rw (dsn, closed) tt
    | inl opened ↦ elim (Bool-cases given.db_pinged) [
      | inr silent ↦ rw (dsn, opened, silent) tt
      | inl pinged ↦ elim (Bool-cases given.migrated) [
        | inr old ↦ rw (dsn, opened, pinged, old) tt
        | inl migrated ↦
            rw (dsn, opened, pinged, migrated)
              (
                refl,
                refl,
                (
                  λ empty. absurd (
                      ground (
                        arith,
                        text_beq_iff (env getenv (codes "MYSQL_DSN") []) [],
                        env_empty getenv (codes "MYSQL_DSN") ∙ empty,
                      )),
                  refl,
                  refl,
                  refl,
                ),
              )
      ]
    ]
  ]
]

or_fatal-Serving :
    (getenv : Environment) (given : Given) (t : Option Text) → Serving getenv given (or_fatal t)
unfolding or_fatal
or_fatal-Serving getenv given none = tt
or_fatal-Serving getenv given (some t) = tt

hash_command-Serving :
    (getenv : Environment) (given : Given) (more : List Text)
    → Serving getenv given (hash_command given more)
unfolding hash_command
hash_command-Serving getenv given [] = elim (Option-cases given.first_line) [
  | inl nothing ↦ rw nothing tt
  | inr (password, line) ↦ rw line (or_fatal-Serving getenv given _)
]
hash_command-Serving getenv given (password ∷ more) = or_fatal-Serving getenv given _

otpauth_command-Serving :
    (getenv : Environment) (given : Given) (more : List Text)
    → Serving getenv given (otpauth_command more)
unfolding otpauth_command
otpauth_command-Serving getenv given [] = tt
otpauth_command-Serving getenv given (a ∷ []) = tt
otpauth_command-Serving getenv given (a ∷ b ∷ []) = tt
otpauth_command-Serving getenv given (a ∷ b ∷ d ∷ []) = tt
otpauth_command-Serving getenv given (a ∷ b ∷ d ∷ e ∷ more) = tt

with_command-Serving :
    (getenv : Environment) (given : Given) (command : Text) (more : List Text)
    → Serving getenv given (with_command getenv given command more)
unfolding with_command
with_command-Serving getenv given command more =
    elim (Bool-cases (command == codes "hash-password")) [
      | inl a ↦ rw a (hash_command-Serving getenv given more)
      | inr a ↦ elim (Bool-cases (command == codes "generate-totp")) [
        | inl b ↦ rw (a, b) (or_fatal-Serving getenv given _)
        | inr b ↦ elim (Bool-cases (command == codes "otpauth")) [
          | inl d ↦ rw (a, b, d) (otpauth_command-Serving getenv given more)
          | inr d ↦ rw (a, b, d) (serve-Serving getenv given)
        ]
      ]
    ]

with_args-Serving :
    (getenv : Environment) (given : Given) (args : List Text)
    → Serving getenv given (with_args getenv given args)
unfolding with_args
with_args-Serving getenv given [] = serve-Serving getenv given
with_args-Serving getenv given (program ∷ []) = serve-Serving getenv given
with_args-Serving getenv given (program ∷ command ∷ more) =
    with_command-Serving getenv given command more

pub main-Serving : (getenv : Environment) (given : Given) → Serving getenv given (main getenv given)
unfolding main
main-Serving getenv given = with_args-Serving getenv given given.args

sensor_key_unset :
    (getenv : Environment) → getenv (codes "SENSOR_KEY") ≡ [] → (config_of getenv).sensor_key ≡ []
unfolding config_of
sensor_key_unset getenv h = env_empty getenv (codes "SENSOR_KEY") ∙ h

env_set : (getenv : Environment) (k d : Text) → getenv k ≢ [] → env getenv k d ≡ getenv k
unfolding env
env_set getenv k d given = elim (Bool-cases (getenv k == [])) [
  | inl unset ↦ absurd (given ((text_beq_iff (getenv k) []).0 unset))
  | inr set ↦ rw set refl
]

zero_interval :
    (getenv : Environment)
    → getenv (codes "POLL_SECONDS") ≢ []
    → NoDigit (getenv (codes "POLL_SECONDS"))
    → (config_of getenv).poll_interval ≡ pos 0
unfolding config_of seconds int64
zero_interval getenv given h =
    rw
      (
        env_set getenv (codes "POLL_SECONDS") (codes "10") given,
        parse_int64-NoDigit (getenv (codes "POLL_SECONDS")) h,
      )
      refl

new_server_key : (cfg : Config) → (new_server cfg).cfg.sensor_key ≡ cfg.sensor_key
unfolding new_server
new_server_key cfg = refl

module _ ⦃c : Collation⦄ where
  -- If the program serves without SENSOR_KEY in its environment, its sensor API answers a POST without
  -- the header X-Sensor-Key with 200, if the body can be read, and gives every report of it to
  -- UpsertFlow in its turn.
  pub main-sensor_flows :
      (getenv : Environment) (given : Given) (cfg : Config) (nb : Client) (fs : List SensorFlow)
      (r : Request) (d : Db)
      → main getenv given ≡ serves cfg nb
      → getenv (codes "SENSOR_KEY") ≡ []
      → r.method ≡ codes "POST"
      → r.header (codes "X-Sensor-Key") ≡ []
      → ((sensor_flows (some fs) r (new_server cfg, d)).0.status ≡ 200)
        × ((sensor_flows (some fs) r (new_server cfg, d)).1 ≡ (new_server cfg, after_reports fs d))
  main-sensor_flows getenv given cfg nb fs r d h unset post missing =
      let (e, _, _) = rw h at (main-Serving getenv given) in
      let empty = ap (λ (k : Config). k.sensor_key) e ∙ sensor_key_unset getenv unset in
      sensor_flows-Authorized fs r (new_server cfg) d
        (post, missing ∙ sym (new_server_key cfg ∙ empty))

  -- If the program serves with a POLL_SECONDS that is set and has no digit, strconv.Atoi reads it as
  -- 0, and time.NewTicker panics when pollNetBird starts, which ends the process.
  pub main-panics :
      (getenv : Environment) (given : Given) (cfg : Config) (nb : Client) (first : Round)
      (ticks : List Round) (d : Db)
      → main getenv given ≡ serves cfg nb
      → getenv (codes "POLL_SECONDS") ≢ []
      → NoDigit (getenv (codes "POLL_SECONDS"))
      → start_poll first ticks (new_server cfg, d) ≡ none
  unfolding new_server start_poll is_positive
  main-panics getenv given cfg nb first ticks d h set no_digit =
      let (e, _, _) = rw h at (main-Serving getenv given) in
      let interval : cfg.poll_interval ≡ pos 0 =
        ap (λ (k : Config). k.poll_interval) e ∙ zero_interval getenv set no_digit in
      rw interval refl
