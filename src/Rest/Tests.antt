-- ===== src/Rest/Tests.antt =====
-- The routes on a concrete server: an editor, one item, and no failure to come.
use mathlib.Core.Path.{subst}
use my_template.Prelude.{
  ◌≡◌, ◌≢◌, ◌∙◌, refl, sym, String, ◌<>◌, true, false, none, some, [], ◌∷◌, is_empty, all_chars,
  pos, str_eq, eq_iff, arith,
}
use my_template.Prelude.Maps.{empty}
use my_template.Core.{ok}
use my_template.Auth.{AuthState, Identity, TokenRecord, new}
use my_template.Auth.Tokens.{issue_token_with}
use my_template.Http.{Request, bearer_token}
use my_template.Storage.{Pool}
use my_template.Disk.{Bytes}
use my_template.Users.Role.{Role, editor, viewer, from_str, at_least}
use my_template.Users.Service.{hashed}
use my_template.Audit.Service.{written}
use my_template.Attachments.Image.{Libraries}
use my_template.Backup.Validate.{reply}
use my_template.Rest.World.{Data, Server, resolve}
use my_template.Rest.Session.{IsActor}
use my_template.Rest.Env.{Env}
use my_template.Rest.Denied.{TooLow, IsDenied}
use my_template.Rest.Floor.{Lacks, answer_call-IsDenied}
use my_template.Rest.Privileges.{OnlyOwn}
use my_template.Rest.Privileges.Calls.{answer_call-OnlyOwn}
use my_template.Rest.Recorded.{Recorded}
use my_template.Rest.Headers.{
  content_disposition_header_value, content_disposition_header_value-quoted, is_quotable,
  is_visible,
}
use my_template.Rest.Routes.{
  RoleCall, AuthCall, role_call, auth_call, delete_item, delete_user, answer_call, route_of,
}

abbrev lib : Libraries Bytes
lib = record {
  guess_format = λ bytes. none;
  decode = λ limits bytes. none;
  dimensions = λ picture. (1, 1);
  resize = λ picture width height. picture;
  to_rgba8 = λ picture. record { width = 1; height = 1; pixels = [] };
  blend = λ channel a. channel;
  write_image = λ quality image. none;
  sha256_digest = λ bytes. 171 ∷ [];
}

-- A password is its own hash.
abbrev env : Env Bytes
env = record {
  clock = record { auth = 20; role = 21; handler = 22; record_at = 23 };
  now = "2026-07-02 00:00:00";
  seconds = 1782950400;
  fresh = "b";
  salt = "";
  argon = record {
    hash = λ salt password. hashed password;
    check = λ password hash. str_eq password hash;
  };
  json = λ value. written "{}";
  show = λ value. "";
  display = λ e. "";
  items_engine = record { fetch = λ pieces t. t.rows; count = λ pieces t. 0 };
  audit_engine = record { fetch = λ pieces t. t.rows; count = λ pieces t. 0 };
  older = λ days ts. false;
  sqlite = record {
    connect = λ bytes. reply tt;
    integrity_check = λ bytes. reply "ok";
    table_named = λ table bytes. reply (some table);
  };
  snapshot = [];
  pid = 1;
  nonce = 2;
  base = "/srv";
  attachments_dir = "/srv/attachments";
  dir_exists = λ files. true;
  entries = λ files. [];
  lib = lib;
  listening = true;
  allow_setup = false;
}

abbrev eve : Identity
eve = record { id = "eve"; name = "Eve"; role = "editor" }

abbrev vic : Identity
vic = record { id = "vic"; name = "Vic"; role = "viewer" }

abbrev with_token : AuthState
with_token = issue_token_with new eve false "a" 3

abbrev req : Request
req = record { authorization = some "Bearer a"; banto_client = some "banto" }

abbrev start : Data
start = record {
  users = record {
    rows =
        record {
          id = 1;
          username = "eve";
          password_hash = "secret";
          display_name = "Eve";
          created_at = "2026-07-01 00:00:00";
          updated_at = "2026-07-01 00:00:00";
          role = "editor";
        }
        ∷ [];
    next_id = 2;
  };
  settings = empty;
  audit = record { rows = []; next_id = 1 };
  store = record {
    items = record {
      rows =
          record {
            id = 1;
            name = "tea";
            price = pos 300;
            stock = pos 2;
            updated_at = "2026-07-01 00:00:00";
          }
          ∷ [];
      next_id = 2;
    };
    sent = [];
  };
  attached = record {
    metas = record { rows = []; next_id = 1 };
    disk = record { files = []; faults = [] };
  };
}

abbrev world : Pool Data
world = record { tables = start; faults = [] }

session_of : Identity → TokenRecord
session_of i = record { identity = i; issued_at = 3; last_used = 3; remembered = false }

record_injective : (x y : TokenRecord) → some x ≡ some y → x ≡ y
record_injective x y e = cc e

text_injective : (x y : String) → some x ≡ some y → x ≡ y
text_injective x y e = cc e

role_injective : (x y : Role) → ok x ≡ ok y → x ≡ y
role_injective x y e = cc e

-- The session of the token is all that a request with it has.
low_session :
    (i : Identity) (own min : Role)
    → from_str i.role ≡ ok own
    → at_least own min ≡ false
    → TooLow min req (issue_token_with new i false "a" 3)
unfolding bearer_token issue_token_with session_of
low_session i own min reads low token r sent there role reads' =
    let s = issue_token_with new i false "a" 3 in
    let same_token : "a" ≡ token = text_injective "a" token sent in
    let same : session_of i ≡ r =
      record_injective (session_of i) r (subst (λ k. s.tokens k ≡ some r) (sym same_token) there) in
    let same_role : own ≡ role = role_injective own role (
      sym reads
      ∙ subst (λ (x : TokenRecord). from_str x.identity.role ≡ ok role) (sym same) reads') in
    subst (λ x. at_least x min ≡ false) same_role low

not_admin : ◌≡◌ {A = String} "editor" "admin" → ⊥
not_admin e = ground (arith, (eq_iff "editor" "admin").1 e)

Lacks-delete_user : Lacks (delete_user 1) req with_token
unfolding bearer_token issue_token_with session_of
Lacks-delete_user token r sent there allowed =
    let same_token : "a" ≡ token = text_injective "a" token sent in
    let same : session_of eve ≡ r =
      record_injective (session_of eve) r
        (subst (λ k. with_token.tokens k ≡ some r) (sym same_token) there) in
    not_admin (subst (λ (x : TokenRecord). x.identity.role ≡ "admin") (sym same) allowed)

viewer_low : TooLow editor req (issue_token_with new vic false "a" 3)
unfolding from_str at_least
viewer_low = low_session vic viewer editor refl refl

answer_call-IsDenied_example :
    let r = route_of (delete_user 1) in
    let (first, s') = resolve env.clock.auth req with_token in
    let second = (resolve env.clock.role req s').0 in
    IsActor req with_token first
    × IsActor req with_token second
    × IsDenied env r.method r.path r.guard first second world
        (answer_call env (role_call (delete_user 1)) req with_token world)
answer_call-IsDenied_example =
    answer_call-IsDenied env (delete_user 1) req with_token world Lacks-delete_user

abbrev tea : RoleCall
tea = delete_item 1

other_call : (account : AuthCall) → role_call tea ≢ auth_call account
other_call account e = cc e

answer_call-OnlyOwn_example :
    OnlyOwn req
      (issue_token_with new vic false "a" 3)
      start
      (answer_call env (role_call tea) req (issue_token_with new vic false "a" 3) world).2.tables
answer_call-OnlyOwn_example =
    answer_call-OnlyOwn env req (issue_token_with new vic false "a" 3) world (role_call tea)
      other_call viewer_low

abbrev server : Server
server = record { auth = with_token; parts = start }

content_disposition_header_value-quoted_example :
    (quoted : String) × (encoded : String) × (content_disposition_header_value "写\"1.png"
      ≡ "attachment; filename=\"" <> quoted <> "\"; filename*=UTF-8''" <> encoded)
    × (is_empty quoted ≡ false)
    × (all_chars is_quotable quoted ≡ true)
    × (all_chars is_visible encoded ≡ true)
content_disposition_header_value-quoted_example = content_disposition_header_value-quoted "写\"1.png"
