-- ===== src/Settings/Config.antt =====
-- settings.rs: the typed settings, written and then read.
use my_template.Prelude.{
  ℕ, ◌≤◌, String, ◌≡◌, ◌≢◌, refl, ap, Bool, Bool-cases, inl, inr, true, false, Option, none, some,
  [], arith, str_eq, is_empty_ne, to_string, parse_unsigned-to_string, parse_i64-to_string, max_i64,
  ℤ, pos, negsuc, to_string_ℤ,
}
use my_template.Prelude.Maps.{Map}
use my_template.Core.{ok}
use my_template.Storage.{Pool, statement, query, pure, ◌>>=◌}
use my_template.Users.Role.{Role, as_str, from_str-as_str}
use my_template.Settings.Values.{
  ServerSettings, AuthSettings, AuditSettings, flag, bool_text, port_of, role_of, unless_empty,
  unwrap_or, parse_retention, normalize_retention,
}
use my_template.Settings.Service.{
  get, set, server_config, set_server_config, auth_config, set_auth_config, audit_config,
  set_audit_config, write_server, write_auth,
}
use my_template.Settings.Exclusion.{is_open, is_disabled}

flag-bool_text : (b : Bool) → str_eq (bool_text b) "true" ≡ b
unfolding bool_text
flag-bool_text true = refl
flag-bool_text false = refl

role_of-as_str : (role : Role) → role_of (some (as_str role)) ≡ some role
unfolding role_of
role_of-as_str role = rw ((from_str-as_str (as_str role) role).1 refl) refl

port_of-to_string : (n : ℕ) → n ≤ 65535 → port_of (some (to_string n)) ≡ some n
unfolding port_of
port_of-to_string n le = parse_unsigned-to_string 65535 n le

abbrev of_tables : Map String → Pool (Map String)
of_tables t = record { tables = t; faults = [] }

module _ (config : ServerSettings) (t : Map String) where
  reads_server :
      config.port ≤ 65535
      → let (result, db) = write_server config (of_tables t) in
        (result ≡ ok tt) × ((server_config db).0 ≡ ok config)
  unfolding write_server server_config get set pure ◌>>=◌ query statement flag
  reads_server le =
      (refl, rw (flag-bool_text config.enabled, port_of-to_string config.port le) refl)

  writes_server :
      (config.enabled ≡ true → is_disabled t ≡ false)
      → set_server_config config (of_tables t) ≡ write_server config (of_tables t)
  unfolding set_server_config auth_config get pure ◌>>=◌ query statement
  writes_server h = elim (Bool-cases config.enabled) [
    | inl e ↦ rw (e, h e) refl
    | inr e ↦ rw e refl
  ]

module _ (config : AuthSettings) (t : Map String) where
  reads_auth :
      config.autologin_username ≢ some ""
      → let (result, db) = write_auth config (of_tables t) in
        (result ≡ ok tt) × ((auth_config db).0 ≡ ok config)
  unfolding write_auth auth_config get set pure ◌>>=◌ query statement flag
  reads_auth ne = (
    refl,
    rw
        (
          flag-bool_text config.disabled,
          role_of-as_str config.disabled_role,
          flag-bool_text config.autologin_enabled,
          names config.autologin_username ne,
        )
        refl,
  )
    where
      names :
          (name : Option String) → name ≢ some "" → unless_empty (some (unwrap_or "" name)) ≡ name
      names none ne = refl
      names (some name) ne = rw (is_empty_ne name (λ e. ne (ap some e))) refl

  writes_auth :
      (config.disabled ≡ true → is_open t ≡ false)
      → set_auth_config config (of_tables t) ≡ write_auth config (of_tables t)
  unfolding set_auth_config server_config get pure ◌>>=◌ query statement
  writes_auth h = elim (Bool-cases config.disabled) [ inl e ↦ rw (e, h e) refl | inr e ↦ rw e refl ]

-- A server's settings with a port of 16 bits, not open while authentication is switched off, are stored and
-- read back as they are, if no statement fails.
pub server_config-set_server_config :
    (config : ServerSettings) (t : Map String)
    → config.port ≤ 65535
    → (config.enabled ≡ true → is_disabled t ≡ false)
    → let (result, db) = set_server_config config (record { tables = t; faults = [] }) in
      (result ≡ ok tt) × ((server_config db).0 ≡ ok config)
server_config-set_server_config config t le h =
    rw (writes_server config t h) (reads_server config t le)

-- The settings of the authentication, not switched off while the server is open, and with no empty name
-- for the automatic login, are stored and read back as they are, if no statement fails.
pub auth_config-set_auth_config :
    (config : AuthSettings) (t : Map String)
    → config.autologin_username ≢ some ""
    → (config.disabled ≡ true → is_open t ≡ false)
    → let (result, db) = set_auth_config config (record { tables = t; faults = [] }) in
      (result ≡ ok tt) × ((auth_config db).0 ≡ ok config)
auth_config-set_auth_config config t ne h = rw (writes_auth config t h) (reads_auth config t ne)

-- A limit of the audit log: none, or a positive `i64`.
abbrev pub IsLimit : Option ℤ → Type 0
IsLimit none = Unit
IsLimit (some (pos n)) = (1 ≤ n) × (n ≤ max_i64)
IsLimit (some (negsuc n)) = ⊥

limit_reads :
    (limit default : Option ℤ)
    → IsLimit limit
    → parse_retention (some (to_string_ℤ (unwrap_or (pos 0) limit))) default ≡ limit
unfolding parse_retention to_string_ℤ normalize_retention
limit_reads none default h = rw (parse_i64-to_string 0 (omega arith)) refl
limit_reads (some (pos n)) default h = rw (parse_i64-to_string n h.1) (ground (arith, h.0))
limit_reads (some (negsuc n)) default h = absurd h

-- The limits of the audit log, each none or a positive `i64`, are stored and read back as they are, no limit
-- being stored as 0, if no statement fails.
pub audit_config-set_audit_config :
    (config : AuditSettings) (t : Map String)
    → IsLimit config.retention_days
    → IsLimit config.retention_rows
    → let (result, db) = set_audit_config config (record { tables = t; faults = [] }) in
      (result ≡ ok tt) × ((audit_config db).0 ≡ ok config)
unfolding set_audit_config audit_config get set pure ◌>>=◌ query statement
audit_config-set_audit_config config t days rows = (
  refl,
  rw
      (
        limit_reads config.retention_days (some (pos 90)) days,
        limit_reads config.retention_rows (some (pos 100000)) rows,
      )
      refl,
)
