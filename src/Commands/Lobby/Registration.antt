-- ===== src/Commands/Lobby/Registration.antt =====
-- What a new player's registration does, on both branches.
use mathlib.Core.Path.{subst}
use ups_server.Base.{
  set-set, lt_of_get_elem?, ℕ, ◌≡◌, refl, Bool, true, false, Bool-cases, Bytes, codes, [], ◌∷◌,
  ◌++◌, some, inl, inr, All, ltb, ◌&&◌, get_elem?, get_elem?-set_self, set, length, arith, ◌↔◌,
  if◌then◌else◌,
}
use ups_server.Commands.Dispatch.Packets.{register_message-frame}
use ups_server.Commands.Lobby.{
  text_at, tell, is_username_availible, proceed_new_player_connection, set_availible,
}
use ups_server.Commands.Lobby.Names.{NotNamed, is_username_availible-NotNamed}
use ups_server.Game.Player.{Player, set_name}
use ups_server.Server.Memory.{WellFormed}
use ups_server.Server.State.{State, Packet, done, modify, and_then}
use ups_server.Wire.Codes.{h_s_ack, h_s_nack_reas, head_to_format, find_format}
use ups_server.Wire.Format.{AreBytes, frame, encode, encode_item, Fits}
use ups_server.Wire.Message.{Message, message, text}
use ups_server.Wire.Serialize.{at, as_text}

-- The packet that carries a message to a socket.
abbrev pub packet_to : ℕ → Message → Packet
packet_to socket m = record { socket = socket; size = length (frame m); bytes = frame m }

abbrev pub ack : ℕ → Message
ack a = record (message h_s_ack []) { player = some a }

pub ack-Fits : (a : ℕ) → Fits (ack a)
unfolding encode
ack-Fits a = record { header = omega arith; payload = tt; size = omega arith }

abbrev pub nack : ℕ → Message
nack a = record (message h_s_nack_reas (codes "s")) {
  payload = text (codes "Username already in use!") ∷ [];
  player = some a;
}

unfoldable pub are_bytes : Bytes → Bool
are_bytes [] = true
are_bytes (b ∷ s) = ltb b 256 && are_bytes s

pub are_bytes-AreBytes : (s : Bytes) → are_bytes s ≡ true → AreBytes s
unfolding are_bytes
are_bytes-AreBytes [] h = tt
are_bytes-AreBytes (b ∷ s) h =
    let tail : are_bytes s ≡ true = ground (arith, h) in
    (ground (arith, h), are_bytes-AreBytes s tail)

nack-Fits : (a : ℕ) → Fits (nack a)
unfolding encode encode_item are_bytes
nack-Fits a = record {
  header = omega arith;
  payload = ((refl, omega arith, are_bytes-AreBytes (codes "Username already in use!") refl), tt);
  size = omega arith;
}

module _ (s : State) (m : Message) (a : ℕ) (p : Player) (name : Bytes) where
  -- A new player who is there and asks for a name that no listed player has gets the name, is free
  -- for a game from then on, and an acknowledgement is queued; nothing else changes.
  pub proceed_new_player_connection-free :
      WellFormed s
      → m.payload ≡ text name ∷ []
      → m.player ≡ some a
      → get_elem? s.heap a ≡ some p
      → All (NotNamed s name) s.players
      → proceed_new_player_connection m s
        ≡ done tt (record s {
          heap = set s.heap a (record p { name = name; name_set = true; availible = true });
          p_queue = s.p_queue ++ packet_to p.socket (ack a) ∷ [];
        })
  unfolding proceed_new_player_connection text_at at as_text modify tell head_to_format find_format
  proceed_new_player_connection-free w payload player here free =
      let (b, run, iff) = is_username_availible-NotNamed s name w in
      let run' : is_username_availible name s ≡ done true s =
        subst (λ c. is_username_availible name s ≡ done c s) (iff.1 free) run in
      let named : Player = set_name p name in
      let ready : Player = set_availible true named in
      let lt = lt_of_get_elem? s.heap a p here in
      let here1 = get_elem?-set_self s.heap a named lt in
      let both = set-set s.heap a named ready in
      let there = get_elem?-set_self s.heap a ready lt in
      let sent =
        register_message-frame (record s { heap = set s.heap a ready }) (ack a) a ready (ack-Fits a)
          refl there in
      rw
        (
          proceed_new_player_connection, text_at, payload, and_then, run', player, modify, here,
          and_then, here1, and_then, both, tell, sent,
        )
        refl

  -- A new player who is there and asks for a name that a listed player has is told so; nothing else
  -- changes.
  proceed_new_player_connection-taken :
      WellFormed s
      → m.payload ≡ text name ∷ []
      → m.player ≡ some a
      → get_elem? s.heap a ≡ some p
      → (All (NotNamed s name) s.players → ⊥)
      → proceed_new_player_connection m s
        ≡ done tt (record s { p_queue = s.p_queue ++ packet_to p.socket (nack a) ∷ [] })
  unfolding proceed_new_player_connection text_at at as_text tell head_to_format find_format
  proceed_new_player_connection-taken w payload player here taken =
      let (b, run, iff) = is_username_availible-NotNamed s name w in
      let taken' : b ≡ false = elim (Bool-cases b) [
        | inl hit ↦ absurd (taken (iff.0 hit))
        | inr miss ↦ miss
      ] in
      let run' : is_username_availible name s ≡ done false s =
        subst (λ c. is_username_availible name s ≡ done c s) taken' run in
      let sent = register_message-frame s (nack a) a p (nack-Fits a) refl here in
      rw (proceed_new_player_connection, text_at, payload, and_then, run', player, tell, sent) refl

  -- In a well formed memory, a new player who is there and asks for a name gets it, is free for a
  -- game from then on, and an acknowledgement is queued, if no listed player has the name; if one
  -- has it, the new player is told so. Nothing else changes.
  pub proceed_new_player_connection-answers :
      WellFormed s
      → m.payload ≡ text name ∷ []
      → m.player ≡ some a
      → get_elem? s.heap a ≡ some p
      → (free : Bool) × ((free ≡ true) ↔ All (NotNamed s name) s.players)
        × (proceed_new_player_connection m s
            ≡ done tt (
                if free
                then record s {
                  heap = set s.heap a (record p { name = name; name_set = true; availible = true });
                  p_queue = s.p_queue ++ packet_to p.socket (ack a) ∷ [];
                }
                else record s { p_queue = s.p_queue ++ packet_to p.socket (nack a) ∷ [] }))
  proceed_new_player_connection-answers w payload player here =
      let (b, run, iff) = is_username_availible-NotNamed s name w in
      elim (Bool-cases b) [
        | inl free ↦ (
          true,
          ((λ _. iff.0 free), (λ _. refl)),
          proceed_new_player_connection-free w payload player here (iff.0 free),
        )
        | inr taken ↦ (
          false,
          ((λ c. cc), (λ all. let free = iff.1 all in cc)),
          proceed_new_player_connection-taken w payload player here
              (λ all. let free = iff.1 all in cc),
        )
      ]
