-- ===== src/Commands/Memory/Return.antt =====
-- The handlers for players who leave, are lost or come back.
use ups_server.Server.Games.{get_players_oponent}
use ups_server.Server.Players.{delete_player}
use ups_server.Base.{ℕ, refl, true, false, [], ◌∷◌, Option, some, arith}
use ups_server.Commands.Lobby.{tell, set_in_game, set_availible}
use ups_server.Commands.Match.{
  reconnect, proceed_player_reconnection, proceed_game_ending, proceed_player_logout,
  proceed_player_lost,
}
use ups_server.Commands.Memory.Lobby.{
  tell-Keeps, text_at-Keeps, first_text, flags-Keeps, set_availible-Keeps, set_in_game-Keeps,
}
use ups_server.Server.Memory.{Ptr, Object, Keeps, Any}
use ups_server.Server.Memory.Lists.{bool_Keeps, option_Keeps}
use ups_server.Server.Memory.Managers.{
  Ptr-mono, Ptr-of_Object, Ptr-some, same_name-Keeps, get_game_by_player-Keeps,
  get_players_oponent-Keeps, oponent_in-Keeps, delete_game-Keeps,
}
use ups_server.Server.Memory.Players.{
  get_player_by_name-Keeps, delete_player-Keeps, proceed_player_disconnection-Keeps,
}
use ups_server.Server.Memory.Rules.{
  then_Keeps, weaken_Keeps, load-Keeps, load_game-Keeps, modify_game-Keeps,
}
use ups_server.Server.State.{◌>>=◌, ◌>>◌, load, modify, load_game, modify_game}
use ups_server.Wire.Message.{text, Message}
use ups_server.Wire.Codes.{h_s_game_con, h_s_game_ended, head_to_format}
use ups_server.Wire.Deserialize.Shape.{HasTypes}
use ups_server.Game.Decimal.{get_game_string}

module _ {n k : ℕ} where
  replace_first-Keeps :
      (g p : Option ℕ)
      → Ptr k g
      → Object n p
      → Keeps n k Any (modify_game g (λ x. record x { p1 = p }))
  replace_first-Keeps g p hg hp =
      modify_game-Keeps g (λ x. record x { p1 = p }) hg
        (λ x ok. record { first = hp; second = ok.second; turn = ok.turn; board = ok.board })
        (λ x. refl)

  replace_second-Keeps :
      (g p : Option ℕ)
      → Ptr k g
      → Object n p
      → Keeps n k Any (modify_game g (λ x. record x { p2 = p }))
  replace_second-Keeps g p hg hp =
      modify_game-Keeps g (λ x. record x { p2 = p }) hg
        (λ x ok. record { first = ok.first; second = hp; turn = ok.turn; board = ok.board })
        (λ x. refl)

  free_both-Keeps :
      (p o : Option ℕ)
      → Ptr n p
      → Ptr n o
      → Keeps n k Any (do
        modify p (set_in_game false)
        modify o (set_in_game false)
        modify p (set_availible true)
        modify o (set_availible true)
        tell o h_s_game_ended [])
  unfolding head_to_format
  free_both-Keeps p o hp ho = then_Keeps _ _ (set_in_game-Keeps p false hp) λ k4 _ l4 _.
      then_Keeps _ _ (set_in_game-Keeps o false ho) λ k5 _ l5 _.
        then_Keeps _ _ (set_availible-Keeps p true hp) λ k6 _ l6 _.
          then_Keeps _ _ (set_availible-Keeps o true ho) λ k7 _ l7 _. tell-Keeps o _ _ ho refl

  -- The opponent is lost too and leaves the server.
  drop_oponent-Keeps :
      (p o : Option ℕ)
      → Ptr n p
      → Ptr n o
      → Keeps n k Any
          (do delete_player o; modify p (set_availible true); modify p (set_in_game false))
  drop_oponent-Keeps p o hp ho = then_Keeps _ _ (delete_player-Keeps o ho) λ k1 _ l1 _.
      then_Keeps _ _ (set_availible-Keeps p true hp)
        λ k2 _ l2 _. weaken_Keeps _ (λ _ _ _. tt) (set_in_game-Keeps p false hp)

  -- Both players see the game as it is, and the lost player is forgotten.
  resume-Keeps :
      (g p old : Option ℕ)
      → Ptr k g
      → Ptr n p
      → Ptr n old
      → Keeps n k Any (do
        oponent ← get_players_oponent p
        now ← load_game g
        turn ← load now.player_on_turn
        other ← load oponent
        self ← load p
        tell p h_s_game_con
            (text turn.name ∷ text other.name ∷ text (get_game_string now.field) ∷ [])
        tell oponent h_s_game_con
            (text turn.name ∷ text self.name ∷ text (get_game_string now.field) ∷ [])
        delete_player old)
  unfolding head_to_format
  resume-Keeps g p old hg hp ho = then_Keeps _ _ (get_players_oponent-Keeps p hp) λ k1 o l1 hq.
      then_Keeps _ _ (load_game-Keeps g (Ptr-mono k k1 g (omega arith) hg)) λ k2 now l2 (now_ok, _).
        then_Keeps _ _ (load-Keeps now.player_on_turn now_ok.turn) λ k3 turn l3 _.
          then_Keeps _ _ (load-Keeps o hq) λ k4 other l4 _.
            then_Keeps _ _ (load-Keeps p hp) λ k5 self l5 _.
              then_Keeps _ _ (tell-Keeps p _ _ hp refl) λ k6 _ l6 _.
                then_Keeps _ _ (tell-Keeps o _ _ hq refl) λ k7 _ l7 _. delete_player-Keeps old ho

module _ {n k : ℕ} where
  reconnect-Keeps : (p old : Option ℕ) → Ptr n p → Ptr n old → Keeps n k Any (reconnect p old)
  unfolding reconnect head_to_format
  reconnect-Keeps p old hp ho = then_Keeps _ _ (load-Keeps old ho) λ k1 lost l1 _.
      then_Keeps _ _ (flags-Keeps p _ hp (λ x. refl) (λ x. refl)) λ k2 _ l2 obj.
        then_Keeps _ _ (set_availible-Keeps p false hp) λ k3 _ l3 _.
          then_Keeps _ _ (set_in_game-Keeps p true hp) λ k4 _ l4 _.
            then_Keeps _ _ (get_game_by_player-Keeps old ho) λ k5 g l5 hg.
              then_Keeps _ _ (load_game-Keeps g hg) λ k6 x l6 (x_ok, _).
                then_Keeps _ _ (same_name-Keeps x.p1 p (Ptr-of_Object n x.p1 x_ok.first) hp)
                  λ k7 first l7 _.
                    let hg' = Ptr-mono k5 k7 g (omega arith) hg in
                    then_Keeps _ _
                      (bool_Keeps first _ _ (λ _. replace_first-Keeps g p hg' obj)
                        (λ _. replace_second-Keeps g p hg' obj))
                      λ k8 _ l8 _. resume-Keeps g p old (Ptr-mono k7 k8 g (omega arith) hg') hp ho

module _ {n k : ℕ} (m : Message) (h : Ptr n m.player) where
  proceed_game_ending-Keeps : Keeps n k Any (proceed_game_ending m)
  unfolding proceed_game_ending head_to_format
  proceed_game_ending-Keeps = then_Keeps _ _ (get_game_by_player-Keeps m.player h) λ k1 g l1 hg.
      then_Keeps _ _ (load_game-Keeps g hg) λ k2 x l2 (x_ok, _).
        then_Keeps _ _ (oponent_in-Keeps x m.player x_ok h) λ k3 o l3 ho.
          let ho' = Ptr-of_Object n o ho in
          then_Keeps _ _ (load-Keeps o ho') λ k4 other l4 _.
            then_Keeps _ _
              (bool_Keeps other.lost _ _ (λ _. drop_oponent-Keeps m.player o h ho')
                (λ _. free_both-Keeps m.player o h ho'))
              λ k5 _ l5 _. delete_game-Keeps g (Ptr-mono k1 k5 g (omega arith) hg)

  pub proceed_player_lost-Keeps : Keeps n k Any (proceed_player_lost m)
  unfolding proceed_player_lost head_to_format
  proceed_player_lost-Keeps = then_Keeps _ _ (get_game_by_player-Keeps m.player h) λ k1 g l1 hg.
      then_Keeps _ _ (load_game-Keeps g hg) λ k2 x l2 (x_ok, _).
        then_Keeps _ _ (oponent_in-Keeps x m.player x_ok h) λ k3 o l3 ho.
          let ho' = Ptr-of_Object n o ho in
          then_Keeps _ _ (flags-Keeps m.player _ h (λ x. refl) (λ x. refl)) λ k4 _ l4 _.
            then_Keeps _ _ (load-Keeps o ho') λ k5 other l5 _.
              bool_Keeps other.lost _ _
                (λ _.
                  then_Keeps _ _ (delete_game-Keeps g (Ptr-mono k1 k5 g (omega arith) hg))
                    λ k6 _ l6 _. then_Keeps _ _ (set_in_game-Keeps o false ho') λ k7 _ l7 _.
                      then_Keeps _ _ (set_in_game-Keeps m.player false h) λ k8 _ l8 _.
                        then_Keeps _ _ (delete_player-Keeps o ho')
                          λ k9 _ l9 _. delete_player-Keeps m.player h)
                (λ _. tell-Keeps o _ _ ho' refl)

module _ {n k : ℕ} (m : Message) (h : Ptr n m.player) where
  pub proceed_player_logout-Keeps : Keeps n k Any (proceed_player_logout m)
  unfolding proceed_player_logout
  proceed_player_logout-Keeps = then_Keeps _ _ (load-Keeps m.player h) λ k1 p l1 _.
      bool_Keeps p.in_game _ _ (λ _. proceed_game_ending-Keeps m h)
        (λ _. proceed_player_disconnection-Keeps p.socket)

  pub proceed_player_reconnection-Keeps :
      HasTypes (b's' ∷ []) m.payload → Keeps n k Any (proceed_player_reconnection m)
  unfolding proceed_player_reconnection head_to_format
  proceed_player_reconnection-Keeps typed =
      let (asked, e) = first_text m.payload typed in
      then_Keeps _ _ (text_at-Keeps m 0 asked e) λ k1 name l1 _.
        then_Keeps _ _ (get_player_by_name-Keeps name) λ k2 old l2 ho.
          option_Keeps old _ _ (λ _. tell-Keeps m.player _ _ h refl)
            (λ a e.
              let ha = Ptr-some n old a e ho in
              then_Keeps _ _ (load-Keeps (some a) ha) λ k3 p l3 _.
                bool_Keeps p.lost _ _ (λ _. reconnect-Keeps m.player (some a) h ha)
                  (λ _. tell-Keeps m.player _ _ h refl))
