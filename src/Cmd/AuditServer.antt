-- ===== src/Cmd/AuditServer.antt =====
-- cmd/audit-server/main.go. The environment, the arguments, the standard input, bcrypt and the
-- random source are arguments.
pub mod Laws
use net_bird_audit.Prelude.{
  ℕ, suc, ◌-◌, ◌*◌, ◌%◌, ◌^◌, Text, codes, Bool, true, false, List, [], ◌∷◌, Option, none, some,
  ◌==◌, nat_eq, text_eq, if◌then◌else◌,
}
use net_bird_audit.Prelude.Int.{ℤ, pos, negsuc, int64}
use net_bird_audit.Time.{Duration, second}
use net_bird_audit.Auth.Totp.{hash_password, generate_totp_secret, otp_auth_uri}
use net_bird_audit.Db.Setup.{open_db}
use net_bird_audit.Netbird.{Client, new_client}
use net_bird_audit.Server.Types.{Config}
use net_bird_audit.Server.Admin.{parse_int64}

-- os.Getenv: a variable that is not set is empty.
abbrev pub Environment : Type 0
Environment = Text → Text

unfoldable pub env : Environment → Text → Text → Text
env getenv k d = let v = getenv k in if v == [] then d else v

-- What the program is given besides its environment: whether the database can be opened and
-- pinged, and whether the migration returns no error.
pub record Given : Type 0 where
  pub args : List Text
  pub first_line : Option Text
  pub generate : Text → ℕ → Option Text
  pub secret_bytes : Option Text
  pub db_opened : Bool
  pub db_pinged : Bool
  pub migrated : Bool

-- What the program does: it prints, it ends with log.Fatal, or it calls Run of a new server.
pub data Main : Type 0 where
  prints : Text → Main
  fatal : Main
  serves : Config → Client → Main

-- time.Duration(n) * time.Second, which wraps.
unfoldable pub seconds : ℤ → Duration
seconds (pos n) = int64 (n * second % 2 ^ 64)
seconds (negsuc n) = int64 ((2 ^ 64 - suc n) * second % 2 ^ 64)

or_fatal : Option Text → Main
or_fatal none = fatal
or_fatal (some t) = prints t

-- The error of OTPAuthURI is dropped, and its text is empty then.
or_empty : Option Text → Text
or_empty none = []
or_empty (some t) = t

-- The password is the second argument, or else the first line of the input.
hash_command : Given → List Text → Main
hash_command given [] = elim given.first_line [
  | none ↦ fatal
  | some password ↦ or_fatal (hash_password given.generate password)
]
hash_command given (password ∷ more) = or_fatal (hash_password given.generate password)

otpauth_command : List Text → Main
otpauth_command (secret ∷ account ∷ issuer ∷ []) =
    prints (or_empty (otp_auth_uri secret account issuer))
otpauth_command _ = fatal

-- strconv.Atoi with its error dropped.
unfoldable pub config_of : Environment → Config
config_of getenv = record {
  listen = env getenv (codes "LISTEN_ADDR") (codes "0.0.0.0:9443");
  sensor_listen = env getenv (codes "SENSOR_LISTEN_ADDR") (codes "127.0.0.1:9080");
  cert_file = env getenv (codes "TLS_CERT") (codes "/opt/netbird-audit/certs/audit.crt");
  key_file = env getenv (codes "TLS_KEY") (codes "/opt/netbird-audit/certs/audit.key");
  admin_user = env getenv (codes "ADMIN_USER") (codes "auditadmin");
  admin_hash = env getenv (codes "ADMIN_HASH") [];
  totp_secret = env getenv (codes "TOTP_SECRET") [];
  sensor_key = env getenv (codes "SENSOR_KEY") [];
  secure_cookie = env getenv (codes "SECURE_COOKIE") (codes "true") == codes "true";
  poll_interval = seconds (parse_int64 (env getenv (codes "POLL_SECONDS") (codes "10")));
}

-- What follows the commands.
serve : Environment → Given → Main
serve getenv given =
    if env getenv (codes "MYSQL_DSN") [] == []
    then fatal
    else elim (open_db given.db_opened given.db_pinged) [
      | none ↦ fatal
      | some pool ↦
          if given.migrated
          then serves (config_of getenv) (
              new_client (env getenv (codes "NETBIRD_URL") [])
                (env getenv (codes "NETBIRD_PAT") []))
          else fatal
    ]

-- An argument that names no command is ignored.
with_command : Environment → Given → Text → List Text → Main
with_command getenv given command more =
    if command == codes "hash-password"
    then hash_command given more
    else if command == codes "generate-totp"
    then or_fatal (generate_totp_secret given.secret_bytes)
    else if command == codes "otpauth"
    then otpauth_command more
    else serve getenv given

with_args : Environment → Given → List Text → Main
with_args getenv given (program ∷ command ∷ more) = with_command getenv given command more
with_args getenv given _ = serve getenv given

unfoldable pub main : Environment → Given → Main
unfolding or_fatal or_empty hash_command otpauth_command serve with_command with_args
main getenv given = with_args getenv given given.args
