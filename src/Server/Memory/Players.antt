-- ===== src/Server/Memory/Players.antt =====
-- The operations on the vector of players of UPSServer/network/Server.cpp, and the memory after
-- them.
use ups_server.Base.{
  inr, refl, ℕ, ◌<◌, Bool, Bytes, List, [], ◌∷◌, Option, none, some, unset_pointer, ◌=s=◌, All,
  All-mono, arith,
}
use ups_server.Game.Player.{Player, remove_socket}
use ups_server.Server.Memory.{Ptr, PlayerOk, Below, safe, Keeps, Any, PlayerPtr}
use ups_server.Server.Memory.Lists.{
  bool_Keeps, option_Keeps, position-Keeps, erase_at-Keeps, lift-fault,
}
use ups_server.Server.Memory.Managers.{Ptr-some, same_name-Keeps}
use ups_server.Server.Memory.Rules.{
  then_Keeps, pure-Keeps, get-Keeps, load-Keeps, modify-Keeps, register_command-Keeps, Valid-lists,
  Valid-network, Later-refl,
}
use ups_server.Server.Players.{
  first_player, get_player_by_socket, get_player_by_name, delete_player,
  proceed_player_disconnection, has_this_socket, close_socket, without,
}
use ups_server.Server.State.{pure, get, load, update, ◌>>=◌}

first_player-Keeps :
    {n k : ℕ} (test : Player → Bool) (players : List ℕ)
    → All (Below n) players
    → Keeps n k (PlayerPtr n) (first_player test players)
unfolding first_player
first_player-Keeps test [] h = pure-Keeps none tt
first_player-Keeps test (a ∷ players) h = then_Keeps _ _ (load-Keeps (some a) h.0) λ k1 p _ _.
    bool_Keeps (test p) _ _ (λ _. pure-Keeps (some a) h.0)
      (λ _. first_player-Keeps test players h.1)

module _ {n k : ℕ} where
  pub get_player_by_socket-Keeps : (fd : ℕ) → Keeps n k (PlayerPtr n) (get_player_by_socket fd)
  unfolding get_player_by_socket
  get_player_by_socket-Keeps fd =
      then_Keeps get (λ s. first_player (has_this_socket fd) s.players) get-Keeps
        λ k1 s _ v. first_player-Keeps (has_this_socket fd) s.players v.listed

  pub get_player_by_name-Keeps : (name : Bytes) → Keeps n k (PlayerPtr n) (get_player_by_name name)
  unfolding get_player_by_name
  get_player_by_name-Keeps name =
      then_Keeps get (λ s. first_player (λ p. p.name =s= name) s.players) get-Keeps
        λ k1 s _ v. first_player-Keeps (λ p. p.name =s= name) s.players v.listed

set_players-Keeps :
    {n k : ℕ} (players : List ℕ)
    → All (Below n) players
    → Keeps n k Any (update λ s. record s { players = players })
unfolding update
set_players-Keeps players h t w =
    safe (omega arith) (Valid-lists w players t.games t.command_queue h w.running w.waiting)
      (Later-refl t) tt

close_socket-Keeps : {n k : ℕ} (fd : ℕ) → Keeps n k Any (update (close_socket fd))
unfolding update
close_socket-Keeps fd s v =
    safe (omega arith)
      (Valid-network v s.packet_queue s.p_queue (without fd s.client_socks) (fd ∷ s.closed))
      (Later-refl s) tt

socket_test-Keeps :
    {n k : ℕ} (fd a : ℕ)
    → a < n
    → Keeps n k Any (load (some a) >>= λ p. pure (has_this_socket fd p))
socket_test-Keeps fd a lt = then_Keeps _ _ (load-Keeps (some a) lt) λ k1 p _ _. pure-Keeps _ tt

module _ {n k : ℕ} where
  pub delete_player-Keeps : (p : Option ℕ) → Ptr n p → Keeps n k Any (delete_player p)
  unfolding delete_player
  delete_player-Keeps p hp = then_Keeps _ _ get-Keeps λ k1 s _ v.
      then_Keeps _ _
        (position-Keeps k1 _ s.players 0
          (All-mono _ _ (λ a lt k' le. same_name-Keeps (some a) p lt hp) s.players v.listed))
        λ k2 i le _.
          then_Keeps _ _ (erase_at-Keeps n s.players i v.listed)
            λ k3 rest le' h. set_players-Keeps rest h

  pub proceed_player_disconnection-Keeps :
      (fd : ℕ) → Keeps n k Any (proceed_player_disconnection fd)
  unfolding proceed_player_disconnection
  proceed_player_disconnection-Keeps fd =
      then_Keeps (update (close_socket fd)) _ (close_socket-Keeps fd) λ k1 _ _ _.
        then_Keeps _ _ get-Keeps λ k2 s _ v.
          then_Keeps _ _
            (position-Keeps k2 _ s.players 0
              (All-mono _ _ (λ a lt k' le. socket_test-Keeps fd a lt) s.players v.listed))
            λ k3 i _ _. then_Keeps _ _ (get_player_by_socket-Keeps fd) λ k4 found _ hf.
              option_Keeps found _ _ (λ _. lift-fault Any unset_pointer tt)
                λ pl e.
                  let pl_ok = Ptr-some n found pl e hf in
                  then_Keeps _ _ (load-Keeps (some pl) pl_ok) λ k5 p _ _.
                    bool_Keeps p.in_game _ _
                      (λ _.
                        then_Keeps _ _ (modify-Keeps (some pl) _ pl_ok (λ x ok. keep_links x ok))
                          λ k6 _ _ _. register_command-Keeps _ (pl_ok, inr refl))
                      (λ _.
                        then_Keeps _ _ (modify-Keeps (some pl) _ pl_ok (λ x ok. drop_links x ok))
                          λ k6 _ _ _.
                            then_Keeps _ _ (erase_at-Keeps n s.players i v.listed)
                              λ k7 rest _ h. set_players-Keeps rest h)
    where
      keep_links : (x : Player) → PlayerOk n x → PlayerOk n (remove_socket x)
      keep_links x ok = record { joining = ok.joining; asked = ok.asked }

      drop_links :
          (x : Player)
          → PlayerOk n x
          → PlayerOk n (record (remove_socket x) { joining_player = none })
      drop_links x ok = record { joining = tt; asked = ok.asked }
