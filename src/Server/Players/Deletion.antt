-- ===== src/Server/Players/Deletion.antt =====
-- Which player `deletePlayer` takes from the vector.
use ups_server.Base.{
  ℕ, suc, ◌+◌, ◌≡◌, refl, ap, ◌∙◌, ◌=s=◌, List, [], ◌∷◌, ◌++◌, some, All, get_elem?, length, arith,
}
use ups_server.Game.Player.{Player}
use ups_server.Server.Games.{same_name}
use ups_server.Server.Games.Removal.{erase_at-here}
use ups_server.Server.Players.{delete_player}
use ups_server.Server.Players.Lookup.{Passes, Fails}
use ups_server.Server.State.{State, done, load, get, update, position, erase_at, and_then}

module _ (s : State) (d : ℕ) (q : Player) (at_d : get_elem? s.heap d ≡ some q) where
  position-named :
      (before after : List ℕ) (a i : ℕ)
      → All (Fails s (λ p. p.name =s= q.name)) before
      → Passes s (λ p. p.name =s= q.name) a
      → position (λ x. same_name (some x) (some d)) (before ++ a ∷ after) i s
        ≡ done (suc (i + length before)) s
  unfolding position same_name load
  position-named [] after a i fails (p, e, hit) =
      rw (e, and_then, at_d, and_then, hit) (ap (λ j. done (suc j) s) (omega arith))
  position-named (x ∷ before) after a i ((p, e, miss), fails) passes =
      rw (e, and_then, at_d, and_then, miss)
        (position-named before after a (suc i) fails passes
          ∙ ap (λ j. done (suc j) s) (omega arith))

-- Where a listed player has the name of the player to delete, the deletion takes the first of them
-- from the vector, who need not be that player, and changes nothing else.
pub delete_player-first :
    (s : State) (d : ℕ) (q : Player) (before after : List ℕ) (a : ℕ)
    → get_elem? s.heap d ≡ some q
    → s.players ≡ before ++ a ∷ after
    → All (Fails s (λ p. p.name =s= q.name)) before
    → Passes s (λ p. p.name =s= q.name) a
    → delete_player (some d) s ≡ done tt (record s { players = before ++ after })
unfolding delete_player get update
delete_player-first s d q before after a at_d e fails passes =
    let found : position (λ x. same_name (some x) (some d)) s.players 0 s
        ≡ done (suc (length before)) s =
      ap (λ zs. position (λ x. same_name (some x) (some d)) zs 0 s) e
      ∙ (position-named s d q at_d before after a 0 fails passes
          ∙ ap (λ j. done (suc j) s) (omega arith)) in
    let erased : erase_at s.players (suc (length before)) s ≡ done (before ++ after) s =
      ap (λ zs. erase_at zs (suc (length before)) s) e ∙ erase_at-here before after a s in
    rw (found, erased) refl
