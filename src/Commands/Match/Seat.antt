-- ===== src/Commands/Match/Seat.antt =====
-- A new player who takes the seat of a lost one, and what the lookups give then.
use ups_server.Base.{
  ℕ, ◌≡◌, ◌≢◌, refl, sym, ap, ◌∙◌, Bool, true, false, Option, some, All, All-get, get_elem?,
  get_elem?-set_self, get_elem?-set_ne, lt_of_get_elem?, set, ◌=s=◌, =s=-refl,
}
use ups_server.Game.Board.{Game}
use ups_server.Game.Player.{Player}
use ups_server.Server.Access.{load_game-at, same_name-at}
use ups_server.Server.Games.{get_game_by_player, get_players_oponent, oponent_in, same_name}
use ups_server.Server.Seating.{name_at, seating}
use ups_server.Server.Seating.Changes.{
  name_at-here, name_at-ne, name_at-heap, seats-names, seats-set, seating-ext,
  get_game_by_player-seating,
}
use ups_server.Server.State.{State, done, and_then}

-- The new player with the name of the lost one.
abbrev pub returned : Player → Player → Player
returned p q = record p { name = q.name; name_set = true; availible = false; in_game = true }

-- The player has no seat in the game.
abbrev pub NotSeated : ℕ → Game → Type 0
NotSeated a x = (x.p1 ≢ some a) × (x.p2 ≢ some a)

-- The seat, the first where `first` is true, and the other one.
abbrev pub seat_of : Bool → Game → Option ℕ
seat_of true x = x.p1
seat_of false x = x.p2

abbrev pub other_seat : Bool → Game → Option ℕ
other_seat true x = x.p2
other_seat false x = x.p1

abbrev pub take_seat : Bool → ℕ → Game → Game
take_seat true a x = record x { p1 = some a }
take_seat false a x = record x { p2 = some a }

pub take_seat-turn :
    (first : Bool) (a : ℕ) (x : Game) → (take_seat first a x).player_on_turn ≡ x.player_on_turn
take_seat-turn true a x = refl
take_seat-turn false a x = refl

pub take_seat-field : (first : Bool) (a : ℕ) (x : Game) → (take_seat first a x).field ≡ x.field
take_seat-field true a x = refl
take_seat-field false a x = refl

oponent_in-first :
    (s : State) (y : Game) (c : Option ℕ) (first : Bool)
    → same_name y.p1 c s ≡ done first s
    → oponent_in y c s ≡ done (other_seat first y) s
unfolding oponent_in
oponent_in-first s y c true e = rw (oponent_in, e, and_then) refl
oponent_in-first s y c false e = rw (oponent_in, e, and_then) refl

module _ (s : State) (a b d g : ℕ) (p q r : Player) (x : Game) (first : Bool)
    (here : get_elem? s.heap a ≡ some p) (old : get_elem? s.heap b ≡ some q)
    (there : get_elem? s.heap d ≡ some r) (a≢b : a ≢ b) (a≢d : a ≢ d)
    (free : All (NotSeated a) s.game_heap) (found : get_elem? s.game_heap g ≡ some x)
    (seat : seat_of first x ≡ some b) (other : other_seat first x ≡ some d)
    (apart : (r.name =s= q.name) ≡ false)
    (plays : get_game_by_player (some b) s ≡ done (some g) s) where
  -- The memory where the new player has the name, and where the seat is taken, too.
  abbrev pub renamed : State
  renamed = record s { heap = set s.heap a (returned p q) }

  abbrev pub seated : State
  seated = record renamed { game_heap = set s.game_heap g (take_seat first a x) }

  new_there : get_elem? renamed.heap a ≡ some (returned p q)
  new_there = get_elem?-set_self s.heap a (returned p q) (lt_of_get_elem? s.heap a p here)

  old_there : get_elem? renamed.heap b ≡ some q
  old_there = get_elem?-set_ne s.heap a b (returned p q) a≢b ∙ old

  other_there : get_elem? renamed.heap d ≡ some r
  other_there = get_elem?-set_ne s.heap a d (returned p q) a≢d ∙ there

  pub seat_there : get_elem? seated.game_heap g ≡ some (take_seat first a x)
  seat_there =
      get_elem?-set_self s.game_heap g (take_seat first a x) (lt_of_get_elem? s.game_heap g x found)

  renamed-seating : seating renamed s.games ≡ seating s s.games
  renamed-seating =
      seating-ext s renamed
        (seats-names s renamed refl λ h y e.
          let none_of = All-get (NotSeated a) s.game_heap h y free e in
          (
            name_at-ne s renamed a (returned p q) y.p1 refl none_of.0,
            name_at-ne s renamed a (returned p q) y.p2 refl none_of.1,
          ))
        s.games

  pub renamed-plays : get_game_by_player (some b) renamed ≡ done (some g) renamed
  renamed-plays =
      get_game_by_player-seating s renamed (some b) (some b) (some g)
        (name_at-here renamed b q old_there ∙ sym (name_at-here s b q old)) renamed-seating plays

  same_names : name_at renamed (some a) ≡ name_at renamed (some b)
  same_names =
      name_at-here renamed a (returned p q) new_there ∙ sym (name_at-here renamed b q old_there)

  taken_seats :
      (name_at renamed (take_seat first a x).p1 ≡ name_at renamed x.p1)
      × (name_at renamed (take_seat first a x).p2 ≡ name_at renamed x.p2)
  taken_seats = by_seat first seat
    where
      by_seat :
          (first : Bool)
          → seat_of first x ≡ some b
          → (name_at renamed (take_seat first a x).p1 ≡ name_at renamed x.p1)
            × (name_at renamed (take_seat first a x).p2 ≡ name_at renamed x.p2)
      by_seat true e = (same_names ∙ ap (name_at renamed) (sym e), refl)
      by_seat false e = (refl, same_names ∙ ap (name_at renamed) (sym e))

  seated-plays : get_game_by_player (some a) seated ≡ done (some g) seated
  seated-plays =
      get_game_by_player-seating renamed seated (some b) (some a) (some g)
        (name_at-heap renamed seated refl (some a) ∙ same_names)
        (seating-ext renamed seated
          (seats-set renamed seated g x (take_seat first a x) found refl refl taken_seats.0
            taken_seats.1)
          s.games)
        renamed-plays

  pub renamed-first : same_name x.p1 (some a) renamed ≡ done first renamed
  renamed-first = by_seat first seat other
    where
      by_seat :
          (first : Bool)
          → seat_of first x ≡ some b
          → other_seat first x ≡ some d
          → same_name x.p1 (some a) renamed ≡ done first renamed
      by_seat true e e' =
          ap (λ c. same_name c (some a) renamed) e
          ∙ (same_name-at renamed b a q (returned p q) old_there new_there
              ∙ ap (λ c. done c renamed) (=s=-refl q.name))
      by_seat false e e' =
          ap (λ c. same_name c (some a) renamed) e'
          ∙ (same_name-at renamed d a r (returned p q) other_there new_there
              ∙ ap (λ c. done c renamed) apart)

  pub seated-oponent : get_players_oponent (some a) seated ≡ done (some d) seated
  unfolding get_players_oponent
  seated-oponent =
      rw
        (
          get_players_oponent,
          seated-plays,
          and_then,
          load_game-at seated g (take_seat first a x) seat_there,
          and_then,
        )
        (by_seat first seat other)
    where
      by_seat :
          (first : Bool)
          → seat_of first x ≡ some b
          → other_seat first x ≡ some d
          → oponent_in (take_seat first a x) (some a) seated ≡ done (some d) seated
      by_seat true e e' =
          oponent_in-first seated (take_seat true a x) (some a) true (
            same_name-at seated a a (returned p q) (returned p q) new_there new_there
            ∙ ap (λ c. done c seated) (=s=-refl q.name))
          ∙ ap (λ c. done c seated) e'
      by_seat false e e' =
          oponent_in-first seated (take_seat false a x) (some a) false (
            ap (λ c. same_name c (some a) seated) e'
            ∙ (same_name-at seated d a r (returned p q) other_there new_there
                ∙ ap (λ c. done c seated) apart))
          ∙ ap (λ c. done c seated) e'
