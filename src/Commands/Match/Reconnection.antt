-- ===== src/Commands/Match/Reconnection.antt =====
-- What the request of a client to come back to a game leads to.
use mathlib.Core.Path.{subst}
use ups_server.Base.{
  All-middle, ℕ, ◌≡◌, ◌≢◌, refl, ap, ◌∙◌, Bool, true, false, Bytes, List, [], ◌∷◌, ◌++◌, set,
  Option, some, none, All, get_elem?, ◌=s=◌, =s=-refl,
}
use ups_server.Commands.Dispatch.Packets.{register_message-frame}
use ups_server.Commands.Lobby.{tell, text_at}
use ups_server.Commands.Lobby.Joining.{refusal, refusal-Fits}
use ups_server.Commands.Lobby.Registration.{packet_to}
use ups_server.Commands.Match.{reconnect, proceed_player_reconnection}
use ups_server.Commands.Match.Resuming.{game_con}
use ups_server.Commands.Match.Returning.{reconnect-ends}
use ups_server.Commands.Match.Seat.{NotSeated, seat_of, other_seat, returned, take_seat}
use ups_server.Game.Board.{Game}
use ups_server.Game.Player.{Player}
use ups_server.Server.Access.{load-at}
use ups_server.Server.Games.{get_game_by_player}
use ups_server.Server.Memory.{WellFormed}
use ups_server.Server.Players.{first_player, get_player_by_name}
use ups_server.Server.Players.Disconnection.{first_player-here}
use ups_server.Server.Players.Lookup.{Fails, FirstOf, lookups-FirstOf}
use ups_server.Server.State.{State, M, ◌>>=◌, done, and_then, get, load}
use ups_server.Wire.Codes.{h_s_nack, head_to_format, find_format}
use ups_server.Wire.Format.{Fits}
use ups_server.Wire.Message.{Message, text}
use ups_server.Wire.Serialize.{at, as_text}

-- The answer to the player whom the name leads to.
abbrev answer : Option ℕ → Option ℕ → M (Unit {0})
answer self none = tell self h_s_nack []
answer self (some b) = load (some b) >>= λ p. elim p.lost [
  | true ↦ reconnect self (some b)
  | false ↦ tell self h_s_nack []
]

proceed_player_reconnection-answer :
    (s : State) (m : Message) (a : ℕ) (name : Bytes) (found : Option ℕ)
    → m.player ≡ some a
    → m.payload ≡ text name ∷ []
    → get_player_by_name name s ≡ done found s
    → proceed_player_reconnection m s ≡ answer (some a) found s
unfolding proceed_player_reconnection text_at at as_text
proceed_player_reconnection-answer s m a name none sender payload found =
    rw (proceed_player_reconnection, text_at, payload, found, and_then)
      (ap (λ self. answer self none s) sender)
proceed_player_reconnection-answer s m a name (some b) sender payload found =
    rw (proceed_player_reconnection, text_at, payload, found, and_then)
      (ap (λ self. answer self (some b) s) sender)

answer-lost :
    (s : State) (a b : ℕ) (q : Player)
    → get_elem? s.heap b ≡ some q
    → (lost : Bool) → q.lost ≡ lost
    → answer (some a) (some b) s
      ≡ (elim lost as (λ _. M (Unit {0})) [
        | true ↦ reconnect (some a) (some b)
        | false ↦ tell (some a) h_s_nack []
      ])
          s
answer-lost s a b q there true e = rw (load-at s b q there, and_then, e) refl
answer-lost s a b q there false e = rw (load-at s b q there, and_then, e) refl

-- No player at this address has the name and is lost.
abbrev pub NotLost : State → Bytes → ℕ → Type 0
NotLost s name c =
    (q : Player) → get_elem? s.heap c ≡ some q → (q.name =s= name) ≡ true → q.lost ≡ false

-- In a well formed memory where no listed player of the name is lost, a client who asks to come back
-- under the name is refused; nothing else changes.
pub proceed_player_reconnection-refuses :
    (s : State) (m : Message) (a : ℕ) (p : Player) (name : Bytes)
    → WellFormed s
    → m.player ≡ some a
    → m.payload ≡ text name ∷ []
    → get_elem? s.heap a ≡ some p
    → All (NotLost s name) s.players
    → proceed_player_reconnection m s
      ≡ done tt (record s { p_queue = s.p_queue ++ packet_to p.socket (refusal a) ∷ [] })
unfolding tell head_to_format find_format
proceed_player_reconnection-refuses s m a p name w sender payload here none_lost =
    let (found, run, first) = (lookups-FirstOf s name 0 w).0 in
    proceed_player_reconnection-answer s m a name found sender payload run
    ∙ (refused found first ∙ register_message-frame s (refusal a) a p (refusal-Fits a) refl here)
  where
    refused :
        (found : Option ℕ)
        → FirstOf s (λ p. p.name =s= name) s.players found
        → answer (some a) found s ≡ tell (some a) h_s_nack [] s
    refused none first = refl
    refused (some b) (before, after, e, (q, there, named), fails) =
        let listed = subst (All (NotLost s name)) e none_lost in
        answer-lost s a b q there false
          (All-middle (NotLost s name) before after b listed q there named)

module _ (s : State) (m : Message) (a b d t g : ℕ) (p q r w : Player) (x : Game) (first : Bool)
    (before after : List ℕ) (here : get_elem? s.heap a ≡ some p) (old : get_elem? s.heap b ≡ some q)
    (there : get_elem? s.heap d ≡ some r) (turn : get_elem? s.heap t ≡ some w) (a≢b : a ≢ b)
    (a≢d : a ≢ d) (a≢t : a ≢ t) (free : All (NotSeated a) s.game_heap)
    (found : get_elem? s.game_heap g ≡ some x) (seat : seat_of first x ≡ some b)
    (other : other_seat first x ≡ some d) (on_turn : x.player_on_turn ≡ some t)
    (apart : (r.name =s= q.name) ≡ false) (plays : get_game_by_player (some b) s ≡ done (some g) s)
    (listed : s.players ≡ before ++ b ∷ after)
    (fails : All (Fails s (λ p. p.name =s= q.name)) before)
    (not_before : All (λ c. c ≢ a) before) where
  -- Where a client asks to come back under the name of a lost player, who is the first listed one of
  -- the name, with no entry of the client before, and whose game the lookup gives; where the client is
  -- another player who is there and has no seat in any game, the opponent has another name, the player
  -- on turn is there and not the client, and the two messages fit packets: the client gets the name,
  -- is in a game and not free, and takes the lost player's seat in the game, which is otherwise as it
  -- was; the client and the opponent are told who is on turn, the name of the other, and the board;
  -- and the lost player leaves the vector. Nothing else changes.
  pub proceed_player_reconnection-returns :
      m.player ≡ some a
      → m.payload ≡ text q.name ∷ []
      → q.lost ≡ true
      → Fits (game_con a w.name r.name x.field)
      → Fits (game_con d w.name q.name x.field)
      → proceed_player_reconnection m s
        ≡ done tt (record s {
          heap = set s.heap a (returned p q);
          game_heap = set s.game_heap g (take_seat first a x);
          p_queue =
              (s.p_queue ++ packet_to p.socket (game_con a w.name r.name x.field) ∷ [])
              ++ packet_to r.socket (game_con d w.name q.name x.field) ∷ [];
          players = before ++ after;
        })
  unfolding get_player_by_name get
  proceed_player_reconnection-returns sender payload lost fits fits' =
      let run : get_player_by_name q.name s ≡ done (some b) s =
        ap (λ cs. first_player (λ p. p.name =s= q.name) cs s) listed
        ∙ first_player-here s (λ p. p.name =s= q.name) before after b fails
            (q, old, =s=-refl q.name) in
      proceed_player_reconnection-answer s m a q.name (some b) sender payload run
      ∙ (answer-lost s a b q old true lost
          ∙ reconnect-ends s a b d t g p q r w x first before after here old there turn a≢b a≢d a≢t
              free found seat other on_turn apart plays listed fails not_before fits fits')
