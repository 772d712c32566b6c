-- ===== src/Users/Role.antt =====
-- users.rs, `Role`.
use my_template.Prelude.{
  ℕ, String, ◌<>◌, ◌≡◌, ◌↔◌, ◌⊎◌, refl, Bool, true, false, leb, str_eq, eq_iff, arith,
  if◌then◌else◌,
}
use my_template.Core.{Result, ok, err, other}

pub data Role : Type 0 where
  admin editor viewer : Role

unfoldable pub as_str : Role → String
as_str admin = "admin"
as_str editor = "editor"
as_str viewer = "viewer"

unfoldable pub rank : Role → ℕ
rank viewer = 0
rank editor = 1
rank admin = 2

unfoldable pub at_least : Role → Role → Bool
unfolding rank
at_least role least = leb (rank least) (rank role)

unfoldable pub can_write_resources : Role → Bool
unfolding at_least
can_write_resources role = at_least role editor

unfoldable pub is_admin : Role → Bool
is_admin admin = true
is_admin editor = false
is_admin viewer = false

unfoldable pub from_str : String → Result Role
from_str value =
    if str_eq value "admin"
    then ok admin
    else if str_eq value "editor"
    then ok editor
    else if str_eq value "viewer"
    then ok viewer
    else err (other ("不明なロールです: " <> value))

-- A role's text reads back as the role, and no other text reads as one.
pub from_str-as_str :
    (value : String) (role : Role) → (from_str value ≡ ok role) ↔ (value ≡ as_str role)
unfolding from_str as_str
from_str-as_str value admin = (
  ground (arith, eq_iff value "admin", eq_iff value "editor", eq_iff value "viewer"),
  λ e. rw e refl,
)
from_str-as_str value editor = (
  ground (arith, eq_iff value "admin", eq_iff value "editor", eq_iff value "viewer"),
  λ e. rw e refl,
)
from_str-as_str value viewer = (
  ground (arith, eq_iff value "admin", eq_iff value "editor", eq_iff value "viewer"),
  λ e. rw e refl,
)

-- `at_least` is the order viewer, editor, admin: reflexive, transitive, total, and equal ranks are equal
-- roles; a role writes from editor on, and only an admin is at least an admin.
pub record IsPrivilegeOrder : Type 0 where
  pub transitive : (a b c : Role) → at_least a b ≡ true → at_least b c ≡ true → at_least a c ≡ true
  pub total : (a b : Role) → (at_least a b ≡ true) ⊎ (at_least b a ≡ true)
  pub antisymmetric : (a b : Role) → at_least a b ≡ true → at_least b a ≡ true → a ≡ b
  pub writers : (a : Role) → (can_write_resources a ≡ true) ↔ (a ≡ viewer → ⊥)
  pub admins : (a : Role) → is_admin a ≡ at_least a admin

pub at_least-IsPrivilegeOrder : IsPrivilegeOrder
unfolding at_least can_write_resources is_admin
at_least-IsPrivilegeOrder = record {
  transitive = λ a b c h k. ground arith;
  total = λ a b. ground arith;
  antisymmetric = λ a b h k. ground arith;
  writers = λ a. (ground arith, ground arith);
  admins = λ a. ground arith;
}
