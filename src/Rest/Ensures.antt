-- ===== src/Rest/Ensures.antt =====
-- What a handler ensures, whichever statements and operations on files fail: the rules for its parts.
use my_template.Prelude.{ℕ, Option}
use my_template.Core.{Result}
use my_template.Auth.{Identity}
use my_template.Http.{Request}
use my_template.Storage.{Exec, resume, ◌>>=◌}
use my_template.Storage.Ensures.{Post, Ensures, Goes, Ensures-bind}
use my_template.Rest.World.{
  Server, Handler, Part, zoom, zoom_parts, on_parts, resolve, actor_identity, with_auth,
}

abbrev pub at_part : {T : Type 0} → Part T → Server → T → Server
at_part part t x = record t { parts = part.put x t.parts }

module _ {T A B : Type 0} {Q : Post Server B} (part : Part T) {P : Post T A} (m : Exec T A)
    {t : Server} (p : Ensures (part.look t.parts) m P) where
  pub Ensures-zoom :
      (next : A → Handler B)
      → ((r : Result A) (x : T) → P r x → Goes Q next (r, at_part part t x))
      → Ensures t (zoom part m >>= next) Q
  unfolding zoom zoom_parts on_parts
  Ensures-zoom next g = Ensures-bind (zoom part m) next {t = t} (record {
    from = λ fs.
        let (r, db) = m (record { tables = part.look t.parts; faults = fs }) in
        g r db.tables (p.from fs);
  })

module _ {B : Type 0} {Q : Post Server B} {t : Server} where
  pub Ensures-actor :
      (now : ℕ) (req : Request) (next : Option Identity → Handler B)
      → let (found, s) = resolve now req t.auth in
        Ensures (record t { auth = s }) (next found) Q
        → Ensures t (actor_identity now req >>= next) Q
  unfolding actor_identity with_auth ◌>>=◌ resume
  Ensures-actor now req next g = record { from = λ fs. g.from fs }
