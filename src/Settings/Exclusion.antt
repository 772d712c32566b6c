-- ===== src/Settings/Exclusion.antt =====
-- settings.rs: an open server against switched-off authentication, with writes that may fail half-way.
use my_template.Prelude.{
  ℕ, String, ◌<>◌, ◌≡◌, ◌≢◌, refl, sym, ap, ◌∙◌, code, Bool, true, false, ◌&&◌, arith, str_eq,
  eq_iff, Bool-cases, inl, inr,
}
use Prim.Native.String.{[], ◌∷◌}
use my_template.Prelude.Maps.{Map, insert}
use my_template.Core.{ok}
use my_template.Storage.{raise, ◌>>=◌}
use my_template.Storage.Ensures.{
  Ensures, Ensures-pure, Ensures-raise, Ensures-if, Ensures-then, Ensures-statement, Ensures-query,
  Ensures-lift, Ensures-bind, Post,
}
use my_template.Settings.Values.{
  ServerSettings, AuthSettings, AuditSettings, key_server_enabled, key_auth_disabled, flag,
  bool_text,
}
use my_template.Settings.Service.{
  Settings, get, set, ui_set, server_config, set_server_config, auth_config, set_auth_config,
  set_audit_config, write_server, write_auth,
}

abbrev pub is_open : Map String → Bool
is_open t = flag false (t key_server_enabled)

abbrev pub is_disabled : Map String → Bool
is_disabled t = flag false (t key_auth_disabled)

abbrev pub IsExclusive : Map String → Type 0
IsExclusive t = is_open t && is_disabled t ≡ false

abbrev pub Exclusive : (A : Type 0) → Post (Map String) A
Exclusive A r t = IsExclusive t

module _ {A : Type 0} (t : Map String) (x : IsExclusive t) where
  sets :
      (key value : String) (next : Unit {0} → Settings A)
      → Ensures (insert key value t) (next tt) (Exclusive A)
      → Ensures t (set key value >>= next) (Exclusive A)
  unfolding set
  sets key value next g = Ensures-then (λ t. (ok tt, insert key value t)) next (λ text. x) g

  auth_config-then :
      (next : AuthSettings → Settings A)
      → ((config : AuthSettings)
          → config.disabled ≡ is_disabled t
          → Ensures t (next config) (Exclusive A))
      → Ensures t (auth_config >>= next) (Exclusive A)
  unfolding auth_config get
  auth_config-then next g = Ensures-bind auth_config next (
      Ensures-query _ _ (λ text. x)
        (Ensures-query _ _ (λ text. x)
          (Ensures-query _ _ (λ text. x)
            (Ensures-query _ _ (λ text. x) (Ensures-pure _ (g _ refl))))))

  server_config-then :
      (next : ServerSettings → Settings A)
      → ((config : ServerSettings)
          → config.enabled ≡ is_open t
          → Ensures t (next config) (Exclusive A))
      → Ensures t (server_config >>= next) (Exclusive A)
  unfolding server_config get
  server_config-then next g = Ensures-bind server_config next (
      Ensures-query _ _ (λ text. x)
        (Ensures-query _ _ (λ text. x) (Ensures-query _ _ (λ text. x) (Ensures-pure _ (g _ refl)))))

written_flag : (b d : Bool) → (b ≡ true → d ≡ false) → str_eq (bool_text b) "true" && d ≡ false
unfolding bool_text
written_flag true d h = h refl
written_flag false d h = refl

written_flag_right :
    (d b : Bool) → (b ≡ true → d ≡ false) → d && str_eq (bool_text b) "true" ≡ false
unfolding bool_text
written_flag_right d true h = ground (arith, h refl)
written_flag_right d false h = ground arith

module _ (config : ServerSettings) (t : Map String) (x : IsExclusive t) where
  write_server-Exclusive :
      (config.enabled ≡ true → is_disabled t ≡ false)
      → Ensures t (write_server config) (Exclusive (Unit {0}))
  unfolding write_server flag bool_text
  write_server-Exclusive h =
      sets t x _ _ _ (sets _ opened _ _ _ (sets _ opened _ _ _ (Ensures-pure tt opened)))
    where
      opened : IsExclusive (insert key_server_enabled (bool_text config.enabled) t)
      opened = written_flag config.enabled (is_disabled t) h

  pub set_server_config-Exclusive : Ensures t (set_server_config config) (Exclusive (Unit {0}))
  unfolding set_server_config
  set_server_config-Exclusive =
      Ensures-if config.enabled _ (write_server config)
        (λ e. auth_config-then t x _ λ auth same.
          Ensures-if auth.disabled (raise _) (write_server config) (λ d. Ensures-raise _ x)
            (λ d. write_server-Exclusive λ on. sym same ∙ d))
        (λ e. write_server-Exclusive λ on. cc)

module _ (config : AuthSettings) (t : Map String) (x : IsExclusive t) where
  write_auth-Exclusive :
      (config.disabled ≡ true → is_open t ≡ false)
      → Ensures t (write_auth config) (Exclusive (Unit {0}))
  unfolding write_auth flag bool_text
  write_auth-Exclusive h =
      sets t x _ _ _
        (sets _ closed _ _ _ (sets _ closed _ _ _ (sets _ closed _ _ _ (Ensures-pure tt closed))))
    where
      closed : IsExclusive (insert key_auth_disabled (bool_text config.disabled) t)
      closed = written_flag_right (is_open t) config.disabled h

  pub set_auth_config-Exclusive : Ensures t (set_auth_config config) (Exclusive (Unit {0}))
  unfolding set_auth_config
  set_auth_config-Exclusive =
      Ensures-if config.disabled _ (write_auth config)
        (λ e. server_config-then t x _ λ server same.
          Ensures-if server.enabled (raise _) (write_auth config) (λ d. Ensures-raise _ x)
            (λ d. write_auth-Exclusive λ on. sym same ∙ d))
        (λ e. write_auth-Exclusive λ on. cc)

-- A key of the UI's settings is no key of the rest.
first_code : String → ℕ
first_code [] = 0
first_code (c ∷ s) = code c

other_key : (s key : String) → first_code key ≢ b'u' → str_eq ("ui." <> s) key ≡ false
unfolding first_code
other_key s key ne = elim (Bool-cases (str_eq ("ui." <> s) key)) [
  | inl e ↦ absurd (ne (sym (ap first_code ((eq_iff ("ui." <> s) key).0 e))))
  | inr e ↦ e
]

module _ (t : Map String) (x : IsExclusive t) where
  pub set_audit_config-Exclusive :
      (config : AuditSettings) → Ensures t (set_audit_config config) (Exclusive (Unit {0}))
  unfolding set_audit_config
  set_audit_config-Exclusive config = sets t x _ _ _ (sets _ x _ _ _ (Ensures-pure tt x))

  pub ui_set-Exclusive :
      (username key value : String) → Ensures t (ui_set username key value) (Exclusive (Unit {0}))
  unfolding ui_set set first_code
  ui_set-Exclusive username key value =
      Ensures-lift _ _ (λ e same. x)
        λ done named.
          Ensures-lift _ _ (λ e same. x)
            λ done short.
              Ensures-statement _ (λ text. x)
                (rw
                  (
                    other_key (username <> "." <> key) key_server_enabled (omega arith),
                    other_key (username <> "." <> key) key_auth_disabled (omega arith),
                  )
                  x)
