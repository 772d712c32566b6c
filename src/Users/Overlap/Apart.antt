-- ===== src/Users/Overlap/Apart.antt =====
-- users.rs: updates of two accounts that overlap. The count of the other admins and the write of the role are two
-- statements, with no transaction around them.
use mathlib.Core.Path.{subst}
use my_template.Prelude.{
  ℕ, ◌≤◌, String, ◌≡◌, ◌≢◌, refl, sym, ◌∙◌, Bool, false, some, List, [], ◌∷◌, ◌++◌, arith, eq_iff,
  if◌then◌else◌, ◌==◌, ◌⊎◌, trim,
}
use my_template.Core.{Result, ok, err}
use my_template.Storage.{Sql}
use my_template.Storage.Overlap.{
  Program, done, follow, send, ask, labelled, Running, begin, execute, Reach, here, next,
}
use my_template.Users.Role.{
  Role, admin, editor, viewer, as_str, from_str, from_str-as_str, is_admin,
}
use my_template.Users.Table.{
  UsersTable, UserRow, find_id, by_id, count_other_admins, other_admins, update_rows, set_profile,
  update_profile,
}
use my_template.Users.Service.{UserSummary, role_or_missing, found_summary, summarise_one}
use my_template.Users.Valid.{admins}
use my_template.Users.Overlap.{
  AccountCall, update, Answer, updated, Steps, last_admin, guard_steps, update_write,
  update_checked, account_steps,
}

-- A call's next statement, by its answer and the tables that it leaves.
module _ {T A C X : Type 0} (program : C → Program T A) {v : Running T A}
    (xs ys : List (Program T A)) where
  advance :
      (sql : Sql T X) (then_ : X → Program T A) (x : X) (t u : T)
      → sql t ≡ (ok x, u)
      → Reach program v (record { tables = t; calls = xs ++ send sql then_ ∷ ys })
      → Reach program v (record { tables = u; calls = xs ++ then_ x ∷ ys })
  unfolding send follow
  advance sql then_ x t u e r =
      subst
        (λ (out : Result X × T).
          Reach program v (record { tables = out.1; calls = xs ++ follow then_ out.0 ∷ ys }))
        e (next r (execute xs ys _ _ refl))

abbrev OnlyAdmins : ℕ → ℕ → List UserRow → Type 0
OnlyAdmins a b [] = Unit
OnlyAdmins a b (r ∷ rows) = (r.role ≡ "admin" → (r.id ≡ a) ⊎ (r.id ≡ b)) × OnlyAdmins a b rows

module _ (show : ℕ → String) (now display_name : String) (role : Role)
    (lower : is_admin role ≡ false) where
  abbrev demotion : ℕ → AccountCall
  demotion id = update now id display_name role

  abbrev writing : ℕ → Steps
  writing id = update_write show now id display_name role

  abbrev counting : ℕ → Steps
  counting id =
      ask (other_admins id)
        (λ remaining_admins. if remaining_admins == 0 then done (err last_admin) else writing id)

  abbrev after : ℕ → UsersTable → UsersTable
  after id t = record t {
    rows = update_rows id (set_profile (trim display_name) (as_str role) now) t.rows;
  }

  read_admin :
      (id : ℕ) (t : UsersTable) (r : UserRow)
      → by_id id t ≡ some r
      → r.role ≡ "admin"
      → follow (update_checked show now id display_name role) (role_or_missing show id (by_id id t))
        ≡ counting id
  unfolding follow role_or_missing update_checked guard_steps from_str is_admin
  read_admin id t r found is = rw (found, is, lower) refl

  some_left : (n : ℕ) → 1 ≤ n → (n == 0) ≡ false
  some_left n h = ground arith

  module _ (v : Running UsersTable Answer) (xs ys : List Steps) (id : ℕ) (t : UsersTable) where
    abbrev At : UsersTable → Steps → Type 0
    At u p = Reach (account_steps show) v (record { tables = u; calls = xs ++ p ∷ ys })

    reads :
        (r : UserRow)
        → by_id id t ≡ some r
        → r.role ≡ "admin"
        → At t (account_steps show (demotion id))
        → At t (counting id)
    unfolding account_steps ask
    reads r found is here_ = subst (At t) (read_admin id t r found is) (
        advance (account_steps show) {v = v} xs ys (λ t. (ok (by_id id t), t))
          (λ stored.
            follow (update_checked show now id display_name role) (role_or_missing show id stored))
          (by_id id t) t t refl here_)

    counts : 1 ≤ other_admins id t → At t (counting id) → At t (writing id)
    unfolding ask
    counts others here_ =
        subst (λ (none_left : Bool). At t (if none_left then done (err last_admin) else writing id))
          (some_left (other_admins id t) others)
          (advance (account_steps show) {v = v} xs ys (λ t. (ok (other_admins id t), t))
            (λ remaining_admins.
              if remaining_admins == 0 then done (err last_admin) else writing id)
            (other_admins id t) t t refl here_)

    writes :
        (r : UserRow)
        → by_id id (after id t) ≡ some r
        → r.role ≡ as_str role
        → At t (writing id)
        → (summary : UserSummary) × At (after id t) (done (ok (updated summary)))
    unfolding update_write update_profile found_summary summarise_one
    writes r found is here_ =
        let read : from_str r.role ≡ ok role = (from_str-as_str r.role role).1 is in
        let (summary, e) = summarised r read in
        (
          summary,
          subst (λ answer. At (after id t) (done (labelled updated answer))) e
              (subst (λ row. At (after id t) (done (labelled updated (found_summary show id row))))
                found
                (advance (account_steps show) {v = v} xs ys
                  (update_profile id (trim display_name) (as_str role) now)
                  (λ row. done (labelled updated (found_summary show id row)))
                  (by_id id (after id t)) t (after id t) refl here_)),
        )
      where
        summarised :
            (r : UserRow)
            → from_str r.role ≡ ok role
            → (summary : UserSummary) × (found_summary show id (some r) ≡ ok summary)
        summarised r e = (
          record {
            id = r.id;
            username = r.username;
            display_name = r.display_name;
            role = role;
            created_at = r.created_at;
          },
          rw e refl,
        )

-- The rows after a change of one profile.
module _ (a : ℕ) (display_name role now : String) where
  abbrev changed : List UserRow → List UserRow
  changed rows = update_rows a (set_profile display_name role now) rows

  find_id-changed :
      (rows : List UserRow) (r : UserRow)
      → find_id a rows ≡ some r
      → find_id a (changed rows) ≡ some (set_profile display_name role now r)
  unfolding find_id update_rows
  find_id-changed [] r e = cc
  find_id-changed (x ∷ rows) r e = ground (arith, find_id-changed rows r)

  find_id-changed_ne :
      (b : ℕ) (rows : List UserRow) → a ≢ b → find_id b (changed rows) ≡ find_id b rows
  unfolding find_id update_rows
  find_id-changed_ne b [] ne = refl
  find_id-changed_ne b (x ∷ rows) ne = ground (arith, find_id-changed_ne b rows ne)

  another_left :
      (b : ℕ) (rows : List UserRow) (r : UserRow)
      → a ≢ b
      → find_id b rows ≡ some r
      → r.role ≡ "admin"
      → 1 ≤ count_other_admins a rows
  unfolding find_id count_other_admins
  another_left b [] r ne found is = cc
  another_left b (x ∷ rows) r ne found is =
      ground (arith, eq_iff x.role "admin", another_left b rows r ne)

none_left :
    (a b : ℕ) (display_name role now : String) (rows : List UserRow)
    → role ≢ "admin"
    → OnlyAdmins a b rows
    → admins (changed b display_name role now (changed a display_name role now rows)) ≡ 0
unfolding admins update_rows
none_left a b d role now [] lower only = refl
none_left a b d role now (r ∷ rows) lower only = ground (
  arith,
  eq_iff r.role "admin",
  eq_iff role "admin",
  only.0,
  none_left a b d role now rows lower only.1,
)

as_str-lower : (role : Role) → is_admin role ≡ false → as_str role ≢ "admin"
unfolding as_str is_admin
as_str-lower admin h = cc
as_str-lower editor h = λ e. ground (arith, eq_iff "editor" "admin")
as_str-lower viewer h = λ e. ground (arith, eq_iff "viewer" "admin")

-- Where two accounts are the only admins, two updates that overlap can take the role of both: each counts the
-- other before either is written, both answer that they are done, and no admin is left.
pub last_admin_lost :
    (show : ℕ → String) (now display_name : String) (role : Role) (a b : ℕ) (t : UsersTable)
    (first second : UserRow)
    → is_admin role ≡ false
    → a ≢ b
    → by_id a t ≡ some first
    → first.role ≡ "admin"
    → by_id b t ≡ some second
    → second.role ≡ "admin"
    → OnlyAdmins a b t.rows
    → (w : Running UsersTable Answer) × Reach
        (account_steps show)
        (record { tables = t; calls = [] })
        w
      × (summary_a : UserSummary) × (summary_b : UserSummary) × (w.calls
          ≡ done (ok (updated summary_a)) ∷ done (ok (updated summary_b)) ∷ [])
      × (admins w.tables.rows ≡ 0)
unfolding by_id other_admins
last_admin_lost show now d role a b t first second lower ne found is found' is' only =
    let v : Running UsersTable Answer = record { tables = t; calls = [] } in
    let set = after show now d role lower in
    let steps = λ (id : ℕ). account_steps show (update now id d role) in
    let count = counting show now d role lower in
    let write = writing show now d role lower in
    let begun = next (next here (begin (update now b d role))) (begin (update now a d role)) in
    let read_a = reads show now d role lower v [] (steps b ∷ []) a t first found is begun in
    let read_b = reads show now d role lower v (count a ∷ []) [] b t second found' is' read_a in
    let left_a = another_left a d (as_str role) now b t.rows second ne found' is' in
    let left_b = another_left b d (as_str role) now a t.rows first (λ e. ne (sym e)) found is in
    let count_a = counts show now d role lower v [] (count b ∷ []) a t left_a read_b in
    let count_b = counts show now d role lower v (write a ∷ []) [] b t left_b count_a in
    let kept = find_id-changed a (trim d) (as_str role) now t.rows first found in
    let kept' =
      find_id-changed b (trim d) (as_str role) now (set a t).rows second
        (find_id-changed_ne a (trim d) (as_str role) now b t.rows ne ∙ found') in
    let (summary_a, wrote_a) =
      writes show now d role lower v [] (write b ∷ []) a t _ kept refl count_b in
    let (summary_b, wrote_b) =
      writes show now d role lower v (done (ok (updated summary_a)) ∷ []) [] b (set a t) _ kept'
        refl wrote_a in
    (
      record { tables = set b (set a t); calls = _ },
      wrote_b,
      summary_a,
      summary_b,
      refl,
      none_left a b (trim d) (as_str role) now t.rows (as_str-lower role lower) only,
    )
