-- ===== src/Commands/Match/Returning.antt =====
-- What a lost player who comes back does.
use ups_server.Base.{
  ℕ, ◌≡◌, ◌≢◌, refl, sym, ap, ◌∙◌, Bool, true, false, List, [], ◌∷◌, ◌++◌, some, All, get_elem?,
  get_elem?-set_self, get_elem?-set_ne, lt_of_get_elem?, set, ◌=s=◌, =s=-refl,
}
use ups_server.Commands.Dispatch.Packets.{register_message-frame}
use ups_server.Commands.Lobby.{tell}
use ups_server.Commands.Lobby.Registration.{packet_to}
use ups_server.Commands.Match.{reconnect}
use ups_server.Commands.Match.Seat.{
  returned, NotSeated, seat_of, other_seat, take_seat, take_seat-turn, take_seat-field, renamed,
  seated, seat_there, renamed-plays, renamed-first, seated-oponent,
}
use ups_server.Commands.Match.Resuming.{game_con, rename, inform, told, taking}
use ups_server.Game.Board.{Game}
use ups_server.Game.Player.{Player}
use ups_server.Server.Access.{load-at, load_game-at}
use ups_server.Server.Games.{get_game_by_player, get_players_oponent, same_name}
use ups_server.Server.Players.Deletion.{delete_player-first}
use ups_server.Server.Players.Lookup.{Fails}
use ups_server.Server.State.{State, ◌>>◌, ◌>>=◌, done, and_then, load_game, modify_game}
use ups_server.Wire.Codes.{head_to_format, find_format}
use ups_server.Wire.Format.{Fits}
use ups_server.Wire.Serialize.{at}

module _ (s : State) (a b d t g : ℕ) (p q r w : Player) (x : Game) (first : Bool)
    (before after : List ℕ) (here : get_elem? s.heap a ≡ some p) (old : get_elem? s.heap b ≡ some q)
    (there : get_elem? s.heap d ≡ some r) (turn : get_elem? s.heap t ≡ some w) (a≢b : a ≢ b)
    (a≢d : a ≢ d) (a≢t : a ≢ t) (free : All (NotSeated a) s.game_heap)
    (found : get_elem? s.game_heap g ≡ some x) (seat : seat_of first x ≡ some b)
    (other : other_seat first x ≡ some d) (on_turn : x.player_on_turn ≡ some t)
    (apart : (r.name =s= q.name) ≡ false) (plays : get_game_by_player (some b) s ≡ done (some g) s)
    (listed : s.players ≡ before ++ b ∷ after)
    (fails : All (Fails s (λ p. p.name =s= q.name)) before)
    (not_before : All (λ c. c ≢ a) before) where
  -- The memory in the end.
  abbrev reconnected : State
  reconnected = record s {
    heap = set s.heap a (returned p q);
    game_heap = set s.game_heap g (take_seat first a x);
    p_queue =
        (s.p_queue ++ packet_to p.socket (game_con a w.name r.name x.field) ∷ [])
        ++ packet_to r.socket (game_con d w.name q.name x.field) ∷ [];
    players = before ++ after;
  }

  abbrev taken : State
  taken = seated s a b d g p q r x first here old there a≢b a≢d free found seat other apart plays

  still-Fails :
      (u : State)
      → u.heap ≡ set s.heap a (returned p q)
      → (cs : List ℕ) → All (Fails s (λ p. p.name =s= q.name)) cs
      → All (λ c. c ≢ a) cs
      → All (Fails u (λ p. p.name =s= q.name)) cs
  still-Fails u e [] h ne = tt
  still-Fails u e (c ∷ cs) ((z, at, miss), h) (c≢a, ne) = (
    (
      z,
      ap (λ h. get_elem? h c) e
          ∙ (get_elem?-set_ne s.heap a c (returned p q) (λ i. c≢a (sym i)) ∙ at),
      miss,
    ),
    still-Fails u e cs h ne,
  )

  abbrev sent : State
  sent = record taken {
    p_queue = s.p_queue ++ packet_to p.socket (game_con a w.name r.name x.field) ∷ [];
  }

  inform-ends :
      Fits (game_con a w.name r.name x.field)
      → Fits (game_con d w.name q.name x.field)
      → inform a b (some t) x.field (some d) taken ≡ done tt reconnected
  unfolding tell head_to_format find_format
  inform-ends fits fits' =
      let back = returned p q in
      let at_a = get_elem?-set_self s.heap a back (lt_of_get_elem? s.heap a p here) in
      let at_b = get_elem?-set_ne s.heap a b back a≢b ∙ old in
      let at_d = get_elem?-set_ne s.heap a d back a≢d ∙ there in
      let at_t = get_elem?-set_ne s.heap a t back a≢t ∙ turn in
      let all_sent : State = record sent {
        p_queue = sent.p_queue ++ packet_to r.socket (game_con d w.name q.name x.field) ∷ [];
      } in
      rw
        (
          load-at taken t w at_t,
          and_then,
          load-at taken d r at_d,
          and_then,
          load-at taken a back at_a,
          and_then,
          register_message-frame taken (game_con a w.name r.name x.field) a back fits refl at_a,
          and_then,
          register_message-frame sent (game_con d w.name q.name x.field) d r fits' refl at_d,
          and_then,
        )
        (delete_player-first all_sent b q before after b at_b listed
          (still-Fails all_sent refl before fails not_before) (q, at_b, =s=-refl q.name))

  told-ends :
      Fits (game_con a w.name r.name x.field)
      → Fits (game_con d w.name q.name x.field)
      → told a b g taken ≡ done tt reconnected
  told-ends fits fits' =
      let y = take_seat first a x in
      rw
        (
          seated-oponent s a b d g p q r x first here old there a≢b a≢d free found seat other apart
              plays,
          and_then,
          load_game-at taken g y (
              seat_there s a b d g p q r x first here old there a≢b a≢d free found seat other apart
                plays),
          and_then,
        )
        (ap (λ c. inform a b c y.field (some d) taken) (take_seat-turn first a x ∙ on_turn)
          ∙ (ap (λ f. inform a b (some t) f (some d) taken) (take_seat-field first a x)
              ∙ inform-ends fits fits'))

  pub reconnect-ends :
      Fits (game_con a w.name r.name x.field)
      → Fits (game_con d w.name q.name x.field)
      → reconnect (some a) (some b) s ≡ done tt reconnected
  unfolding reconnect
  reconnect-ends fits fits' =
      let named : State =
        renamed s a b d g p q r x first here old there a≢b a≢d free found seat other apart plays in
      rw (reconnect, load-at s b q old, and_then)
        (rename s a p q
            (do
              game ← get_game_by_player (some b)
              g ← load_game game
              first ← same_name g.p1 (some a)
              elim first [
                | true ↦ modify_game game (λ g. record g { p1 = some a })
                | false ↦ modify_game game (λ g. record g { p2 = some a })
              ]
              oponent ← get_players_oponent (some a)
              now ← load_game game
              inform a b now.player_on_turn now.field oponent)
            here
          ∙ rw
              (
                renamed-plays s a b d g p q r x first here old there a≢b a≢d free found seat other
                    apart plays,
                and_then,
                load_game-at named g x found,
                and_then,
                renamed-first s a b d g p q r x first here old there a≢b a≢d free found seat other
                    apart plays,
                and_then,
              )
              (taking named a g x first (told a b g) found ∙ told-ends fits fits'))
