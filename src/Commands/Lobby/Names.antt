-- ===== src/Commands/Lobby/Names.antt =====
-- Which names a new player may take.
use ups_server.Base.{
  ℕ, ◌≡◌, ◌≢◌, refl, sym, ap, ◌∙◌, ◌↔◌, ◌=s=◌, =s=_iff, Bool, true, false, Bool-cases, Bytes, List,
  [], ◌∷◌, some, inl, inr, All, get_elem?, get_elem?-lt, length,
}
use ups_server.Commands.Lobby.{name_loop, is_username_availible}
use ups_server.Game.Player.{Player}
use ups_server.Server.Memory.{Below, WellFormed}
use ups_server.Server.State.{State, done, load, get, and_then}

-- The player at the address does not have the name.
abbrev pub NotNamed : State → Bytes → ℕ → Type 0
NotNamed s username a = (p : Player) → get_elem? s.heap a ≡ some p → p.name ≢ username

name_loop-done :
    (s : State) (username : Bytes) (players : List ℕ)
    → All (Below (length s.heap)) players
    → (b : Bool) × (name_loop username players s ≡ done b s)
      × ((b ≡ true) ↔ All (NotNamed s username) players)
unfolding name_loop load
name_loop-done s username [] h = (true, refl, ((λ _. tt), (λ _. refl)))
name_loop-done s username (a ∷ players) h =
    let (p, e) = get_elem?-lt s.heap a h.0 in
    let (b, rest, iff) = name_loop-done s username players h.1 in
    elim (Bool-cases (p.name =s= username)) [
      | inl same ↦ (
        false,
        rw (name_loop, load, e, and_then, same) refl,
        ((λ c. cc), (λ all. absurd (all.0 p e ((=s=_iff p.name username).0 same)))),
      )
      | inr other ↦ (
        b,
        rw (name_loop, load, e, and_then, other) rest,
        ((λ c. (not_named p e other, iff.0 c)), (λ all. iff.1 all.1)),
      )
    ]
  where
    not_named :
        (p : Player)
        → get_elem? s.heap a ≡ some p
        → (p.name =s= username) ≡ false
        → NotNamed s username a
    not_named p e other q here same =
        let one : q ≡ p = cc in
        let yes = (=s=_iff p.name username).1 (ap (λ x. x.name) (sym one) ∙ same) in cc

-- In a well formed memory the check of a name ends without a change, and says yes exactly when no
-- listed player has the name.
pub is_username_availible-NotNamed :
    (s : State) (username : Bytes)
    → WellFormed s
    → (b : Bool) × (is_username_availible username s ≡ done b s)
      × ((b ≡ true) ↔ All (NotNamed s username) s.players)
unfolding is_username_availible get
is_username_availible-NotNamed s username w = name_loop-done s username s.players w.listed
