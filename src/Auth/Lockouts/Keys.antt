-- ===== src/Auth/Lockouts/Keys.antt =====
-- auth.rs, `rate_limit_key` and `ip_rate_limit_key`: the two kinds of key share one map. An address is
-- its `Display` text, which holds no `|`.
use Prim.Native.String.{[], ◌∷◌}
use mathlib.Core.Path.{subst}
use my_template.Prelude.{
  String, ◌≡◌, ◌≢◌, refl, sym, ap, Bool, true, false, ◌&&◌, ◌||◌, Option, none, some, arith,
  split_unique, Char, code, has_char, all_chars, leb, ◌==◌, eq_iff,
}
use my_template.Auth.Throttle.{rate_limit_key, ip_rate_limit_key}

abbrev pub NoBar : String → Type 0
NoBar s = has_char b'|' s ≡ false

-- What the text of an `IpAddr` is made of.
unfoldable pub is_address_char : Char → Bool
is_address_char c =
    let n = code c in
    (leb b'0' n && leb n b'9') || (leb b'a' n && leb n b'f') || n == b'.' || n == b':'

abbrev pub IsAddress : String → Type 0
IsAddress ip = all_chars is_address_char ip ≡ true

address-NoBar : (ip : String) → IsAddress ip → NoBar ip
unfolding is_address_char
address-NoBar [] h = refl
address-NoBar (c ∷ s) h = ground (arith, address-NoBar s)

not_ip_only : ¬ IsAddress "ip-only"
unfolding is_address_char
not_ip_only h = cc h

not_dash : ¬ IsAddress "-"
unfolding is_address_char
not_dash h = cc h

dash_ne : ◌≢◌ {A = String} "-" "ip-only"
dash_ne = ground (arith, eq_iff "-" "ip-only")

abbrev pub AreAddress : Option String → Type 0
AreAddress none = Unit
AreAddress (some ip) = IsAddress ip

-- An account's key is never the key of an address, so the two dimensions share one map safely.
pub rate_limit_key-ne-ip_rate_limit_key :
    (peer : Option String) (username ip : String)
    → AreAddress peer
    → rate_limit_key peer username ≢ ip_rate_limit_key ip
unfolding rate_limit_key ip_rate_limit_key
rate_limit_key-ne-ip_rate_limit_key none username ip h e =
    absurd (dash_ne (split_unique ("|") "-" "ip-only" username ip refl refl e).0)
rate_limit_key-ne-ip_rate_limit_key (some peer) username ip h e =
    let r = split_unique ("|") peer "ip-only" username ip (address-NoBar peer h) refl e in
    not_ip_only (subst IsAddress r.0 h)

-- Two account keys are equal only for the same peer and the same name.
pub rate_limit_key_injective :
    (peer peer' : Option String) (username username' : String)
    → AreAddress peer
    → AreAddress peer'
    → rate_limit_key peer username ≡ rate_limit_key peer' username'
    → (peer ≡ peer') × (username ≡ username')
unfolding rate_limit_key
rate_limit_key_injective none none u v h k e =
    (refl, (split_unique ("|") "-" "-" u v refl refl e).1)
rate_limit_key_injective none (some b) u v h k e =
    absurd (
      not_dash
        (subst IsAddress (sym (split_unique ("|") "-" b u v refl (address-NoBar b k) e).0) k))
rate_limit_key_injective (some a) none u v h k e =
    absurd
      (not_dash (subst IsAddress (split_unique ("|") a "-" u v (address-NoBar a h) refl e).0 h))
rate_limit_key_injective (some a) (some b) u v h k e =
    let r = split_unique ("|") a b u v (address-NoBar a h) (address-NoBar b k) e in
    (ap some r.0, r.1)

pub ip_rate_limit_key_injective : (a b : String) → ip_rate_limit_key a ≡ ip_rate_limit_key b → a ≡ b
unfolding ip_rate_limit_key
ip_rate_limit_key_injective a b e = (split_unique ("|") "ip-only" "ip-only" a b refl refl e).1
