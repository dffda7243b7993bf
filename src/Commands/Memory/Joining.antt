-- ===== src/Commands/Memory/Joining.antt =====
-- The handlers for a request to join and its answers.
use ups_server.Commands.Lobby.Starting.{new_game, open_game-opens}
use ups_server.Game.Player.{Player}
use mathlib.Core.Path.{subst}
use ups_server.Base.{
  sym, ◌∙◌, get_elem?-lt, set, length-set, All-set, All-get, ℕ, refl, true, false, [], ◌∷◌, Option,
  none, some, arith, codes,
}
use ups_server.Commands.Lobby.{
  tell, request_join, is_joinable, proceed_player_joining, open_game, start_game, set_in_game,
  proceed_accept_join, proceed_decline_join,
}
use ups_server.Commands.Memory.Lobby.{tell-Keeps, text_at-Keeps, first_text, set_availible-Keeps}
use ups_server.Server.Memory.{Ptr, Object, PlayerOk, Safe, safe, Keeps, Any}
use ups_server.Server.Memory.Lists.{bool_Keeps, option_Keeps}
use ups_server.Server.Memory.Managers.{Ptr-of_Object, Ptr-some, new_game-Valid}
use ups_server.Server.Memory.Players.{get_player_by_name-Keeps}
use ups_server.Server.Memory.Rules.{
  then_Keeps, weaken_Keeps, pure-Keeps, load-Keeps, modify-Keeps, Valid-heap, Later-refl,
}
use ups_server.Server.State.{pure, modify}
use ups_server.Wire.Message.{text, Message}
use ups_server.Wire.Codes.{h_s_nack_reas, head_to_format}
use ups_server.Wire.Deserialize.Shape.{HasTypes}

module _ {n k : ℕ} where
  request_join-Keeps : (p o : Option ℕ) → Ptr n p → Ptr n o → Keeps n k Any (request_join p o)
  unfolding request_join head_to_format
  request_join-Keeps p o hp ho = then_Keeps _ _ (tell-Keeps p _ _ hp refl) λ k1 _ _ _.
      then_Keeps _ _ (set_availible-Keeps p false hp) λ k2 _ _ _.
        then_Keeps _ _ (modify-Keeps p _ hp (λ x ok. record { joining = ho; asked = ok.asked }))
          λ k3 _ _ _. then_Keeps _ _ (load-Keeps p hp) λ k4 x _ _.
            then_Keeps _ _ (tell-Keeps o _ _ ho refl) λ k5 _ _ _.
              then_Keeps _ _
                (modify-Keeps o _ ho (λ x ok. record { joining = ok.joining; asked = hp }))
                λ k6 _ _ _.
                  then_Keeps _ _ (set_availible-Keeps p false hp)
                    λ k7 _ _ _. weaken_Keeps _ (λ _ _ _. tt) (set_availible-Keeps o false ho)

  -- Two players who are there are put in a game.
  open_game-Keeps : (p q : Option ℕ) → Object n p → Object n q → Keeps n k Any (open_game p q)
  open_game-Keeps none q hp hq s v = absurd hp
  open_game-Keeps (some a) none hp hq s v = absurd hq
  open_game-Keeps (some a) (some b) hp hq s v =
      let (p, here) = get_elem?-lt s.heap a (omega (arith, hp, v.heap_size)) in
      let h1 = set s.heap a (set_in_game true p) in
      let size = length-set s.heap a (set_in_game true p) in
      let (q, there) = get_elem?-lt h1 b (omega (arith, hq, v.heap_size, size)) in
      let h2 = set h1 b (set_in_game true q) in
      let links =
        All-set (PlayerOk n) s.heap a (set_in_game true p) v.links
          (plays (All-get (PlayerOk n) s.heap a p v.links here)) in
      let links' =
        All-set (PlayerOk n) h1 b (set_in_game true q) links
          (plays (All-get (PlayerOk n) h1 b q links there)) in
      subst (Safe n k s Any) (sym (open_game-opens s a b p q here there)) (
        safe (omega arith)
          (Valid-heap
            (new_game-Valid n k s (new_game s a b) v
              record { first = hp; second = hq; turn = hp; board = refl } refl)
            h2 (length-set h1 b (set_in_game true q) ∙ size ∙ v.heap_size) links')
          (Later-refl s) tt)
    where
      plays : {x : Player} → PlayerOk n x → PlayerOk n (set_in_game true x)
      plays ok = record { joining = ok.joining; asked = ok.asked }

  start_game-Keeps : (p q : Option ℕ) → Object n p → Object n q → Keeps n k Any (start_game p q)
  unfolding start_game head_to_format
  start_game-Keeps p q hp hq =
      let hp' = Ptr-of_Object n p hp in
      let hq' = Ptr-of_Object n q hq in
      then_Keeps _ _ (open_game-Keeps p q hp hq) λ k4 _ _ _.
        then_Keeps _ _ (load-Keeps p hp') λ k5 x _ _. then_Keeps _ _ (load-Keeps q hq') λ k6 y _ _.
          then_Keeps _ _ (tell-Keeps p _ _ hp' refl) λ k7 _ _ _. tell-Keeps q _ _ hq' refl

module _ {n k : ℕ} (m : Message) (h : Ptr n m.player) where
  pub proceed_player_joining-Keeps :
      HasTypes (b's' ∷ []) m.payload → Keeps n k Any (proceed_player_joining m)
  unfolding proceed_player_joining head_to_format
  proceed_player_joining-Keeps typed =
      let (asked, e) = first_text m.payload typed in
      then_Keeps _ _ (text_at-Keeps m 0 asked e) λ k1 name _ _.
        then_Keeps _ _ (get_player_by_name-Keeps name) λ k2 oponent _ ho.
          option_Keeps oponent _ _ (λ _. tell-Keeps m.player _ _ h refl)
            (λ a e.
              let ha = Ptr-some n oponent a e ho in
              then_Keeps _ _ (load-Keeps (some a) ha) λ k3 p _ _.
                bool_Keeps (is_joinable p) _ _ (λ _. request_join-Keeps m.player (some a) h ha)
                  (λ _. tell-Keeps m.player _ _ h refl))

  -- The answer leaves no question open.
  clear_asked-Keeps :
      Keeps n k
        (λ k' u. Object n m.player)
        (modify m.player (λ p. record p { asked_for_joining_by = none }))
  clear_asked-Keeps =
      modify-Keeps m.player _ h (λ x ok. record { joining = ok.joining; asked = tt })

  clear_joining-Keeps :
      Keeps n k
        (λ k' u. Object n m.player)
        (modify m.player (λ p. record p { joining_player = none }))
  clear_joining-Keeps =
      modify-Keeps m.player _ h (λ x ok. record { joining = tt; asked = ok.asked })

module _ {n k : ℕ} (m : Message) (h : Ptr n m.player) where
  pub proceed_accept_join-Keeps : Keeps n k Any (proceed_accept_join m)
  unfolding proceed_accept_join head_to_format
  proceed_accept_join-Keeps = then_Keeps _ _ (load-Keeps m.player h) λ k1 asked _ (ok, obj).
      then_Keeps _ _ (clear_asked-Keeps m h) λ k2 _ _ _.
        then_Keeps _ _ (clear_joining-Keeps m h) λ k3 _ _ _.
          then_Keeps _ _ (set_availible-Keeps asked.asked_for_joining_by false ok.asked)
            λ k4 _ _ asking. then_Keeps _ _ (set_availible-Keeps m.player false h) λ k5 _ _ _.
              then_Keeps _ _ (load-Keeps asked.asked_for_joining_by ok.asked) λ k6 p _ _.
                option_Keeps p.joining_player _ _
                  (λ _. then_Keeps _ _ (load-Keeps m.player h) λ k7 q _ _.
                    bool_Keeps q.socket_set _ _ (λ _. tell-Keeps m.player _ _ h refl)
                      (λ _. pure-Keeps tt tt))
                  (λ _ _. start_game-Keeps asked.asked_for_joining_by m.player asking obj)

  pub proceed_decline_join-Keeps : Keeps n k Any (proceed_decline_join m)
  unfolding proceed_decline_join head_to_format
  proceed_decline_join-Keeps = then_Keeps _ _ (load-Keeps m.player h) λ k1 asked _ (ok, _).
      then_Keeps _ _ (clear_asked-Keeps m h) λ k2 _ _ _.
        then_Keeps _ _ (clear_joining-Keeps m h) λ k3 _ _ _.
          then_Keeps _ _ (load-Keeps asked.asked_for_joining_by ok.asked) λ k4 p _ _.
            then_Keeps _ _
              (bool_Keeps p.socket_set
                (tell asked.asked_for_joining_by h_s_nack_reas
                  (text (codes "Oponent declined") ∷ []))
                (pure tt) (λ _. tell-Keeps asked.asked_for_joining_by _ _ ok.asked refl)
                (λ _. pure-Keeps tt tt))
              λ k5 _ _ _.
                then_Keeps _ _ (set_availible-Keeps asked.asked_for_joining_by true ok.asked)
                  λ k6 _ _ _. weaken_Keeps _ (λ _ _ _. tt) (set_availible-Keeps m.player true h)
