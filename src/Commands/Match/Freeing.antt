-- ===== src/Commands/Match/Freeing.antt =====
-- Both players of a game are free again.
use mathlib.Core.Path.{subst}
use ups_server.Base.{
  set-set_twice, ℕ, ◌≡◌, ◌≢◌, refl, sym, ◌∙◌, true, false, List, some, All-set, All-get, get_elem?,
  get_elem?-set_self, get_elem?-set_ne, lt_of_get_elem?, set, length, length-set,
}
use ups_server.Commands.Lobby.{set_availible, set_in_game}
use ups_server.Server.Access.{modify-at}
use ups_server.Game.Player.{Player}
use ups_server.Server.Memory.{PlayerOk, Valid, WellFormed}
use ups_server.Server.Memory.Rules.{Valid-heap, Valid-network}
use ups_server.Server.State.{State, Packet, M, ◌>>◌, modify, and_then}

-- A player who is free again.
abbrev pub freed : Player → Player
freed p = record p { in_game = false; availible = true }

-- Players who change, but for their links to other players, leave the memory well formed.
pub set_players-WellFormed :
    (s : State) (a b : ℕ) (p q p' q' : Player) (packets : List Packet)
    → WellFormed s
    → get_elem? s.heap a ≡ some p
    → get_elem? s.heap b ≡ some q
    → (PlayerOk (length s.heap) p → PlayerOk (length s.heap) p')
    → (PlayerOk (length s.heap) q → PlayerOk (length s.heap) q')
    → WellFormed (record s { heap = set (set s.heap a p') b q'; p_queue = packets })
set_players-WellFormed s a b p q p' q' packets w here there keep keep' =
    let n = length s.heap in
    let heap = set (set s.heap a p') b q' in
    let size : length heap ≡ n = length-set (set s.heap a p') b q' ∙ length-set s.heap a p' in
    let links =
      All-set (PlayerOk n) (set s.heap a p') b q'
        (All-set (PlayerOk n) s.heap a p' w.links
          (keep (All-get (PlayerOk n) s.heap a p w.links here)))
        (keep' (All-get (PlayerOk n) s.heap b q w.links there)) in
    subst
      (λ i.
        Valid i (length s.game_heap)
          (record s { heap = set (set s.heap a p') b q'; p_queue = packets }))
      (sym size)
      (Valid-network (Valid-heap w heap size links) s.packet_queue packets s.client_socks s.closed)

-- The four settings that free the players of a game, one player after the other, then `rest`.
pub free_both :
    (s : State) (a b : ℕ) (p q : Player) (rest : M (Unit {0}))
    → get_elem? s.heap a ≡ some p
    → get_elem? s.heap b ≡ some q
    → a ≢ b
    → (do
      modify (some a) (set_in_game false)
      modify (some b) (set_in_game false)
      modify (some a) (set_availible true)
      modify (some b) (set_availible true)
      rest)
        s
      ≡ rest (record s { heap = set (set s.heap a (freed p)) b (freed q) })
free_both s a b p q rest here there apart =
    let p1 : Player = set_in_game false p in
    let q1 : Player = set_in_game false q in
    let p2 : Player = freed p in
    let q2 : Player = freed q in
    let h1 = set s.heap a p1 in
    let h2 = set h1 b q1 in
    let h3 = set h2 a p2 in
    let at_b1 = get_elem?-set_ne s.heap a b p1 apart ∙ there in
    let at_a2 =
      get_elem?-set_ne h1 b a q1 (λ e. apart (sym e))
      ∙ get_elem?-set_self s.heap a p1 (lt_of_get_elem? s.heap a p here) in
    let at_b2 = get_elem?-set_self h1 b q1 (lt_of_get_elem? h1 b q at_b1) in
    let at_b3 = get_elem?-set_ne h2 a b p2 apart ∙ at_b2 in
    rw
      (
        modify-at s a p (set_in_game false) here,
        and_then,
        modify-at (record s { heap = h1 }) b q (set_in_game false) at_b1,
        and_then,
        modify-at (record s { heap = h2 }) a p1 (set_availible true) at_a2,
        and_then,
        modify-at (record s { heap = h3 }) b q1 (set_availible true) at_b3,
        and_then,
        set-set_twice s.heap a b p1 q1 p2 q2 apart,
      )
      refl

-- A freed player is still there.
pub freed-at :
    (s : State) (a b : ℕ) (p q : Player)
    → get_elem? s.heap b ≡ some q
    → a ≢ b
    → get_elem? (set (set s.heap a (freed p)) b (freed q)) b ≡ some (freed q)
freed-at s a b p q there apart = get_elem?-set_self (set s.heap a (freed p)) b (freed q) (
    lt_of_get_elem? (set s.heap a (freed p)) b q
      (get_elem?-set_ne s.heap a b (freed p) apart ∙ there))
