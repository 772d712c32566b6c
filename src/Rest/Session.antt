-- ===== src/Rest/Session.antt =====
-- rest/mod.rs, `actor_identity`: reading the identity of a request brings no session up.
use mathlib.Core.Path.{subst}
use my_template.Prelude.{
  ℕ, ◌≡◌, refl, sym, ap, ◌∙◌, ◌⊎◌, inl, inr, true, false, String, Option, none, some, Option-cases,
  Bool-cases, eq_refl,
}
use my_template.Prelude.Maps
use my_template.Auth.{AuthState, Identity, TokenRecord}
use my_template.Auth.Tokens.{touch, touch_record, is_dead, identity_for}
use my_template.Http.{Request, bearer_token}
use my_template.Rest.World.{resolve}

-- The identity is that of the request's session.
pub record IsSession (req : Request) (s : AuthState) (i : Identity) : Type 0 where
  pub token : String
  pub session : TokenRecord
  pub sent : bearer_token req ≡ some token
  pub there : s.tokens token ≡ some session
  pub same : i ≡ session.identity

abbrev pub IsActor : Request → AuthState → Option Identity → Type 0
IsActor req s none = Unit
IsActor req s (some i) = IsSession req s i

pub resolve-sent :
    (now : ℕ) (req : Request) (s : AuthState) (token : String)
    → bearer_token req ≡ some token
    → resolve now req s ≡ identity_for s token now
unfolding resolve
resolve-sent now req s token sent = rw (sent, resolve) refl

no_token : (token : String) → none ≡ some token → ⊥
no_token token e = cc e

-- What reading the identity of a token answers.
pub identity_for-cases :
    (s : AuthState) (token : String) (now : ℕ)
    → ((identity_for s token now).0 ≡ none)
      ⊎ ((r : TokenRecord) × (s.tokens token ≡ some r)
          × (identity_for s token now ≡ (
            some r.identity,
            record s { tokens = Maps.insert token (record r { last_used = now }) s.tokens },
          )))
unfolding identity_for touch touch_record
identity_for-cases s token now = elim (Option-cases (s.tokens token)) [
  | inl e ↦ inl (rw e refl)
  | inr (r, e) ↦ elim (Bool-cases (is_dead s now r)) [
    | inl d ↦ inl (rw (e, d) refl)
    | inr d ↦ inr (r, e, rw (e, d) refl)
  ]
]

pub resolve-IsActor :
    (now : ℕ) (req : Request) (s : AuthState) → IsActor req s (resolve now req s).0
unfolding resolve
resolve-IsActor now req s = elim (Option-cases (bearer_token req)) [
  | inl e ↦ rw (e, resolve) tt
  | inr (token, sent) ↦
      subst (λ p. IsActor req s p.0) (sym (resolve-sent now req s token sent))
        (elim (identity_for-cases s token now) [
          | inl gone ↦ subst (IsActor req s) (sym gone) tt
          | inr (r, there, e) ↦
              subst (λ p. IsActor req s p.0) (sym e)
                (record { token = token; session = r; sent = sent; there = there; same = refl })
        ])
]

-- No session of the request is new.
abbrev pub KeepsSession : Request → AuthState → AuthState → Type 0
KeepsSession req s s' = (i : Identity) → IsSession req s' i → IsSession req s i

module _ (req : Request) (s : AuthState) (token : String) (now : ℕ) where
  some_injective : (x y : TokenRecord) → some x ≡ some y → x ≡ y
  some_injective x y e = cc e

  none_ne : (x : TokenRecord) → none ≡ some x → ⊥
  none_ne x e = cc e

  abbrev used : TokenRecord → TokenRecord
  used r = record r { last_used = now }

  dead_gone :
      (r : TokenRecord)
      → is_dead s now r ≡ true
      → (touch_record s token now (some r)).1.tokens token ≡ none
  unfolding touch_record
  dead_gone r d = rw d (rw (eq_refl token) refl)

  alive_used :
      (r : TokenRecord)
      → is_dead s now r ≡ false
      → (touch_record s token now (some r)).1.tokens token ≡ some (used r)
  unfolding touch_record
  alive_used r d = rw d (rw (eq_refl token) refl)

  touched-identity :
      (found : Option TokenRecord) (r' : TokenRecord)
      → s.tokens token ≡ found
      → (touch_record s token now found).1.tokens token ≡ some r'
      → (r : TokenRecord) × (s.tokens token ≡ some r) × (r'.identity ≡ r.identity)
  unfolding touch_record
  touched-identity none r' e there = absurd (none_ne r' (sym e ∙ there))
  touched-identity (some r) r' e there = elim (Bool-cases (is_dead s now r)) [
    | inl d ↦ absurd (none_ne r' (sym (dead_gone r d) ∙ there))
    | inr d ↦ (
      r,
      e,
      sym (
          ap (λ (x : TokenRecord). x.identity)
            (some_injective (used r) r' (sym (alive_used r d) ∙ there))),
    )
  ]

module _ (now : ℕ) (req : Request) (s : AuthState) where
  pub identity_for-keeps :
      (token : String)
      → bearer_token req ≡ some token
      → KeepsSession req s (identity_for s token now).1
  unfolding identity_for touch
  identity_for-keeps token sent i h =
      let token_same : h.token ≡ token = cc (sent, h.sent) in
      let (r, there, same) =
        touched-identity req s token now (s.tokens token) h.session refl
          (ap (identity_for s token now).1.tokens (sym token_same) ∙ h.there) in
      record { token = token; session = r; sent = sent; there = there; same = h.same ∙ same }

  pub resolve-keeps : KeepsSession req s (resolve now req s).1
  unfolding resolve
  resolve-keeps i h = elim (Option-cases (bearer_token req)) [
    | inl e ↦ absurd (no_token h.token (sym e ∙ h.sent))
    | inr (token, sent) ↦
        identity_for-keeps token sent i
          (subst (λ s'. IsSession req s' i) (ap (λ p. p.1) (resolve-sent now req s token sent)) h)
  ]
