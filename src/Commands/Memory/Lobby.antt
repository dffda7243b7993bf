-- ===== src/Commands/Memory/Lobby.antt =====
-- The handlers for players who are not in a game.
use mathlib.Core.Path.{subst, sym}
use ups_server.Base.{
  ◌==◌, ◌++◌, ◌∙◌, append-nil, append_assoc, arith, get_elem?, ℕ, ◌≡◌, refl, Bool, true, false,
  Bytes, List, [], ◌∷◌, ◌+◌, not, ◌&&◌, ◌=s=◌, Option, some, All,
}
use ups_server.Commands.Lobby.{
  text_at, tell, set_availible, set_in_game, name_loop, is_username_availible, is_listed, join_name,
  list_loop, proceed_new_player_connection, proceed_player_list_request,
}
use ups_server.Game.Player.{Player, set_name}
use ups_server.Server.Memory.{Ptr, Object, Below, Keeps, Any}
use ups_server.Server.Memory.Lists.{bool_Keeps}
use ups_server.Server.Memory.Rules.{
  then_Keeps, pure-Keeps, get-Keeps, load-Keeps, modify-Keeps, register_message-Keeps,
}
use ups_server.Server.State.{◌>>=◌, pure, load, modify, message_to, format_of, add_all}
use ups_server.Wire.Serialize.{at, as_text}
use ups_server.Wire.Message.{Item, word, text, Message, message, add_data}
use ups_server.Wire.Codes.{head_to_format}
use ups_server.Wire.Deserialize.Shape.{HasTypes}

-- The test of `HasTypes`.
abbrev pub fits : Bytes → List Item → Bool
fits [] [] = true
fits [] (x ∷ xs) = false
fits (c ∷ format) [] = false
fits (c ∷ format) (word x ∷ xs) = (c == b'i') && fits format xs
fits (c ∷ format) (text s ∷ xs) = (c == b's') && fits format xs

fits-HasTypes :
    (format : Bytes) (items : List Item) → fits format items ≡ true → HasTypes format items
fits-HasTypes [] [] h = tt
fits-HasTypes [] (x ∷ xs) h = cc
fits-HasTypes (c ∷ format) [] h = cc
fits-HasTypes (c ∷ format) (word x ∷ xs) h = ground (arith, fits-HasTypes format xs)
fits-HasTypes (c ∷ format) (text s ∷ xs) h = ground (arith, fits-HasTypes format xs)

add_all-parts :
    (m : Message) (items : List Item)
    → (let all : Message = add_all m items in
        (all.msg_format ≡ m.msg_format) × (all.payload ≡ m.payload ++ items))
add_all-parts m [] = (refl, sym (append-nil m.payload))
add_all-parts m (x ∷ items) =
    let (format, payload) = add_all-parts (add_data m x) items in
    (format, payload ∙ append_assoc m.payload (x ∷ []) items)

message_to-HasTypes :
    (p : Option ℕ) (header : ℕ) (items : List Item)
    → HasTypes (format_of header) items
    → (let m : Message = message_to p header items in HasTypes m.msg_format m.payload)
message_to-HasTypes p header items typed =
    let (format, payload) = add_all-parts (message header (format_of header)) items in
    rw (format, payload) typed

text_at-ok :
    (m : Message) (i : ℕ) (s : Bytes) → get_elem? m.payload i ≡ some (text s) → text_at m i ≡ pure s
unfolding text_at at as_text
text_at-ok m i s e = rw (e, at) refl

-- The first item of a message of one text.
pub first_text :
    (items : List Item)
    → HasTypes (b's' ∷ []) items
    → (s : Bytes) × (get_elem? items 0 ≡ some (text s))
first_text [] typed = absurd typed
first_text (text s ∷ items) typed = (s, refl)
first_text (word x ∷ items) typed = absurd (omega (arith, typed.0))

module _ {n k : ℕ} where
  pub tell-Keeps :
      (p : Option ℕ) (header : ℕ) (items : List Item)
      → Ptr n p
      → fits (format_of header) items ≡ true
      → Keeps n k Any (tell p header items)
  unfolding tell
  tell-Keeps p header items h typed =
      register_message-Keeps (message_to p header items) h
        (message_to-HasTypes p header items (fits-HasTypes (format_of header) items typed))

  -- The text of a message that has one there.
  pub text_at-Keeps :
      (m : Message) (i : ℕ) (s : Bytes)
      → get_elem? m.payload i ≡ some (text s)
      → Keeps n k Any (text_at m i)
  unfolding text_at
  text_at-Keeps m i s e = subst (Keeps n k Any) (sym (text_at-ok m i s e)) (pure-Keeps s tt)

  -- A change that leaves the links to other players as they are.
  pub flags-Keeps :
      (p : Option ℕ) (f : Player → Player)
      → Ptr n p
      → ((x : Player) → (f x).joining_player ≡ x.joining_player)
      → ((x : Player) → (f x).asked_for_joining_by ≡ x.asked_for_joining_by)
      → Keeps n k (λ k' u. Object n p) (modify p f)
  flags-Keeps p f h joining asked = modify-Keeps p f h (λ x ok. record {
    joining = subst (Ptr n) (sym (joining x)) ok.joining;
    asked = subst (Ptr n) (sym (asked x)) ok.asked;
  })

  pub set_availible-Keeps :
      (p : Option ℕ) (b : Bool)
      → Ptr n p
      → Keeps n k (λ k' u. Object n p) (modify p (set_availible b))
  set_availible-Keeps p b h = flags-Keeps p (set_availible b) h (λ x. refl) (λ x. refl)

  pub set_in_game-Keeps :
      (p : Option ℕ) (b : Bool)
      → Ptr n p
      → Keeps n k (λ k' u. Object n p) (modify p (set_in_game b))
  set_in_game-Keeps p b h = flags-Keeps p (set_in_game b) h (λ x. refl) (λ x. refl)

name_loop-Keeps :
    {n k : ℕ} (username : Bytes) (players : List ℕ)
    → All (Below n) players
    → Keeps n k Any (name_loop username players)
unfolding name_loop
name_loop-Keeps username [] h = pure-Keeps true tt
name_loop-Keeps username (a ∷ players) h = then_Keeps _ _ (load-Keeps (some a) h.0) λ k1 p _ _.
    bool_Keeps _ _ _ (λ _. pure-Keeps false tt) (λ _. name_loop-Keeps username players h.1)

is_listed-Keeps :
    {n k : ℕ} (asker : Option ℕ) (p : Player) → Ptr n asker → Keeps n k Any (is_listed asker p)
unfolding is_listed
is_listed-Keeps asker p h =
    bool_Keeps (not p.in_game && (p.availible && (p.socket_set && p.name_set)))
      (load asker >>= λ q. pure (not (p.name =s= q.name))) (pure false)
      (λ _. then_Keeps _ _ (load-Keeps asker h) λ k2 q _ _. pure-Keeps _ tt)
      (λ _. pure-Keeps false tt)

list_loop-Keeps :
    {n k : ℕ} (asker : Option ℕ) (players : List ℕ) (count : ℕ) (result : Bytes)
    → Ptr n asker
    → All (Below n) players
    → Keeps n k Any (list_loop asker players count result)
unfolding list_loop
list_loop-Keeps asker [] count result h all = pure-Keeps _ tt
list_loop-Keeps asker (a ∷ players) count result h all =
    then_Keeps _ _ (load-Keeps (some a) all.0) λ k1 p _ _.
      then_Keeps _ _ (is_listed-Keeps asker p h) λ k2 shown _ _.
        bool_Keeps shown (list_loop asker players (count + 1) (join_name count result p.name))
          (list_loop asker players count result)
          (λ _. list_loop-Keeps asker players (count + 1) (join_name count result p.name) h all.1)
          (λ _. list_loop-Keeps asker players count result h all.1)

module _ {n k : ℕ} where
  is_username_availible-Keeps : (username : Bytes) → Keeps n k Any (is_username_availible username)
  unfolding is_username_availible
  is_username_availible-Keeps username =
      then_Keeps _ _ get-Keeps λ k1 s _ v. name_loop-Keeps username s.players v.listed

module _ {n k : ℕ} (m : Message) (h : Ptr n m.player) where
  pub proceed_new_player_connection-Keeps :
      HasTypes (b's' ∷ []) m.payload → Keeps n k Any (proceed_new_player_connection m)
  unfolding proceed_new_player_connection head_to_format
  proceed_new_player_connection-Keeps typed =
      let (name, e) = first_text m.payload typed in
      then_Keeps _ _ (text_at-Keeps m 0 name e) λ k1 username _ _.
        then_Keeps _ _ (is_username_availible-Keeps username) λ k2 free _ _.
          bool_Keeps free _ _
            (λ _.
              then_Keeps _ _
                (flags-Keeps m.player (λ p. set_name p username) h (λ x. refl) (λ x. refl))
                λ k3 _ _ _.
                  then_Keeps _ _ (set_availible-Keeps m.player true h)
                    λ k4 _ _ _. tell-Keeps m.player _ _ h refl)
            (λ _. tell-Keeps m.player _ _ h refl)

  pub proceed_player_list_request-Keeps : Keeps n k Any (proceed_player_list_request m)
  unfolding proceed_player_list_request head_to_format
  proceed_player_list_request-Keeps = then_Keeps _ _ get-Keeps λ k1 s _ v.
      then_Keeps _ _ (list_loop-Keeps m.player s.players 0 [] h v.listed)
        λ k2 listed _ _. tell-Keeps m.player _ _ h refl
