-- ===== src/Rest/Login.antt =====
-- rest/audit.rs, `audited_credential_verifier`: what a login that it lets through has shown.
use my_template.Prelude.{◌≡◌, String, true, Option, none, some}
use my_template.Core.{ok, err}
use my_template.Auth.{Identity}
use my_template.Storage.Ensures.{Post, Ensures}
use my_template.Storage.Rows.{Table}
use my_template.Users.Role.{Role, from_str}
use my_template.Users.Table.{UsersTable, UserRow, by_username}
use my_template.Users.Service.{Argon2, UserIdentity, identity_of}
use my_template.Rest.World.{Data}
use my_template.Rest.Env.{Env}
use my_template.Rest.Account.{session_identity}

module _ (argon : Argon2) (username password : String) (t : UsersTable) where
  -- The row of the account, with the password and the role that it has.
  pub record IsVerified (i : UserIdentity) : Type 0 where
    pub row : UserRow
    pub role : Role
    pub found : by_username username t ≡ some row
    pub matched : argon.check password row.password_hash ≡ true
    pub reads : from_str row.role ≡ ok role
    pub same : i ≡ identity_of username row role

  abbrev pub Verified : Post UsersTable (Option UserIdentity)
  Verified (ok (some i)) t' = (t' ≡ t) × IsVerified i
  Verified (ok none) t' = t' ≡ t
  Verified (err e) t' = t' ≡ t

module _ {Picture : Type 0} (env : Env Picture) (username password : String) (d : Data) where
  -- Nothing but the log has changed, and an identity is that of the account.
  pub record IsLogin (found : Option Identity) (d' : Data) : Type 0 where
    pub kept : d' ≡ record d { audit = d'.audit }
    pub verified :
        (i : Identity)
        → found ≡ some i
        → (u : UserIdentity) × IsVerified env.argon username password d.users u
          × (i ≡ session_identity u)

  abbrev Login : Post Data (Option Identity)
  Login (ok found) d' = IsLogin found d'
  Login (err e) d' = IsLogin none d'
