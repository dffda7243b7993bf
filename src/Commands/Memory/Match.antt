-- ===== src/Commands/Memory/Match.antt =====
-- The handler for a move.
use mathlib.Core.Path.{subst}
use ups_server.Base.{
  ap, Bytes, sym, inl, inr, codes, Result, some, get_elem?, Tolerable, ℕ, ◌≡◌, refl, ◌∙◌, true,
  false, [], ◌∷◌, Option, ok, fault, length, length-set, List, arith, set, Bool, ltb, ◌*◌, ◌+◌,
  if◌then◌else◌, out_of_bounds,
}
use ups_server.Commands.Lobby.{tell}
use ups_server.Commands.Match.{word_at, place_card, win_game, process_game_move}
use ups_server.Commands.Memory.Lobby.{fits, tell-Keeps, set_availible-Keeps, set_in_game-Keeps}
use ups_server.Game.Board.{Square, put}
use ups_server.Game.Control.{Fallen, is_game_won}
use ups_server.Server.Memory.{Ptr, Keeps, Any}
use ups_server.Server.Memory.Lists.{bool_Keeps}
use ups_server.Server.Memory.Managers.{
  Ptr-mono, Ptr-of_Object, get_game_by_player-Keeps, oponent_in-Keeps, delete_game-Keeps,
}
use ups_server.Server.Memory.Rules.{
  then_Keeps, pure-Keeps, lift-Keeps, load-Keeps, load_game-Keeps, modify_game-Keeps,
}
use ups_server.Server.State.{◌>>=◌, ◌>>◌, pure, lift, load_game, modify_game}
use ups_server.Wire.Message.{Item, word, text, Message}
use ups_server.Wire.Codes.{h_s_game_move, head_to_format}
use ups_server.Wire.Deserialize.Shape.{HasTypes}
use ups_server.Wire.Deserialize.Faults.{if-Tolerable}
use ups_server.Game.Board.{Game}
use ups_server.Game.Control.Verdict.{Decided, is_game_won-Decided}
use ups_server.Wire.Serialize.{at, as_word}

word_at-ok : (m : Message) (i x : ℕ) → get_elem? m.payload i ≡ some (word x) → word_at m i ≡ pure x
unfolding word_at at as_word
word_at-ok m i x e = rw (e, at) refl

first_word :
    (items : List Item) (format : Bytes)
    → HasTypes (b'i' ∷ format) items
    → (x : ℕ) × (rest : List Item) × (items ≡ word x ∷ rest) × HasTypes format rest
first_word [] format typed = absurd typed
first_word (word x ∷ rest) format typed = (x, rest, refl, typed.1)
first_word (text s ∷ rest) format typed = absurd (omega (arith, typed.0))

-- The items of a message of three numbers.
three_words :
    (items : List Item)
    → HasTypes (codes "iii") items
    → (x y z : ℕ) × (get_elem? items 0 ≡ some (word x))
      × (get_elem? items 1 ≡ some (word y))
      × (get_elem? items 2 ≡ some (word z))
three_words items typed =
    let (x, rest, e, typed') = first_word items (codes "ii") typed in
    let (y, rest', e', typed'') = first_word rest (codes "i") typed' in
    let (z, rest'', e'', _) = first_word rest' [] typed'' in
    let whole : items ≡ word x ∷ word y ∷ word z ∷ rest'' =
      e ∙ ap (λ r. word x ∷ r) (e' ∙ ap (λ r. word y ∷ r) e'') in
    (
      x,
      y,
      z,
      ap (λ r. get_elem? r 0) whole,
      ap (λ r. get_elem? r 1) whole,
      ap (λ r. get_elem? r 2) whole,
    )

module _ {n k : ℕ} where
  word_at-Keeps :
      (m : Message) (i x : ℕ) → get_elem? m.payload i ≡ some (word x) → Keeps n k Any (word_at m i)
  word_at-Keeps m i x e = subst (Keeps n k Any) (sym (word_at-ok m i x e)) (pure-Keeps x tt)

  -- A change of the board that keeps its size.
  set_field-Keeps :
      (g : Option ℕ) (field : List ℕ)
      → Ptr k g
      → length field ≡ 64
      → Keeps n k Any (modify_game g (λ x. record x { field = field }))
  set_field-Keeps g field hg size =
      modify_game-Keeps g (λ x. record x { field = field }) hg
        (λ x ok. record { first = ok.first; second = ok.second; turn = ok.turn; board = size })
        (λ x. refl)

  set_turn-Keeps :
      (g p : Option ℕ)
      → Ptr k g
      → Ptr n p
      → Keeps n k Any (modify_game g (λ x. record x { player_on_turn = p }))
  set_turn-Keeps g p hg hp =
      modify_game-Keeps g (λ x. record x { player_on_turn = p }) hg
        (λ x ok. record { first = ok.first; second = ok.second; turn = hp; board = ok.board })
        (λ x. refl)

length-put :
    (field after : List ℕ) (s : Square) (card : ℕ)
    → put field s card ≡ ok after
    → length after ≡ length field
unfolding put
length-put field after (i, j) card e = on_test (ltb (i * 8 + j) 64) e
  where
    on_test :
        (b : Bool)
        → (if b then ok (set field (i * 8 + j) card) else fault out_of_bounds) ≡ ok after
        → length after ≡ length field
    on_test true e =
        let same : set field (i * 8 + j) card ≡ after = cc in
        subst (λ xs. length xs ≡ length field) same (length-set field (i * 8 + j) card)
    on_test false e = cc

put-Tolerable : (field : List ℕ) (s : Square) (card : ℕ) → Tolerable (put field s card)
unfolding put
put-Tolerable field (i, j) card = if-Tolerable (ltb (i * 8 + j) 64) _ _ tt tt

is_game_won-Tolerable :
    (fallen : Fallen) (g : Game) (move : Square) → Tolerable (is_game_won fallen g move)
is_game_won-Tolerable fallen g move = at (is_game_won-Decided fallen g move)
  where
    at : {r : Result Bool} → Decided fallen r → Tolerable r
    at (inl (b, e)) = rw e tt
    at (inr (e, _)) = rw e tt

module _ {n k : ℕ} where
  place_card-Keeps : (g : Option ℕ) (card i j : ℕ) → Ptr k g → Keeps n k Any (place_card g card i j)
  unfolding place_card
  place_card-Keeps g card i j hg = then_Keeps _ _ (load_game-Keeps g hg) λ k1 x le (x_ok, _).
      then_Keeps (lift (put x.field (i, j) card))
        (λ field. modify_game g (λ x. record x { field = field }))
        (lift-Keeps (put x.field (i, j) card) (put-Tolerable x.field (i, j) card))
        λ k2 field le2 e.
          set_field-Keeps g field (Ptr-mono k k2 g (omega arith) hg)
            (length-put x.field field (i, j) card e ∙ x_ok.board)

  win_game-Keeps :
      (g p o : Option ℕ) (move : List Item)
      → Ptr k g
      → Ptr n p
      → Ptr n o
      → fits (codes "iii") move ≡ true
      → Keeps n k Any (win_game g p o move)
  unfolding win_game head_to_format
  win_game-Keeps g p o move hg hp ho three = then_Keeps _ _ (load-Keeps p hp) λ k1 x l1 _.
      then_Keeps _ _ (tell-Keeps p _ _ hp three) λ k2 _ l2 _.
        then_Keeps _ _ (tell-Keeps o _ _ ho three) λ k3 _ l3 _.
          then_Keeps _ _ (set_in_game-Keeps p false hp) λ k4 _ l4 _.
            then_Keeps _ _ (set_in_game-Keeps o false ho) λ k5 _ l5 _.
              then_Keeps _ _ (set_availible-Keeps p true hp) λ k6 _ l6 _.
                then_Keeps _ _ (set_availible-Keeps o true ho)
                  λ k7 _ l7 _. delete_game-Keeps g (Ptr-mono k k7 g (omega arith) hg)

module _ {n k : ℕ} where
  -- What follows once the card is read.
  placed-Keeps :
      (g o p : Option ℕ) (card i j : ℕ) (fallen : Fallen)
      → Ptr k g
      → Ptr n o
      → Ptr n p
      → Keeps n k Any (do
        place_card g card i j
        placed ← load_game g
        won ← lift (is_game_won fallen placed (i, j))
        elim won [
          | true ↦ win_game g p o (word card ∷ word i ∷ word j ∷ [])
          | false ↦ do
            modify_game g (λ g. record g { player_on_turn = o })
            tell o h_s_game_move (word card ∷ word i ∷ word j ∷ [])
        ])
  unfolding head_to_format
  placed-Keeps g o p card i j fallen hg ho hp =
      then_Keeps _ _ (place_card-Keeps g card i j hg) λ k1 _ l1 _.
        then_Keeps _ _ (load_game-Keeps g (Ptr-mono k k1 g (omega arith) hg)) λ k2 placed l2 _.
          then_Keeps (lift (is_game_won fallen placed (i, j))) _
            (lift-Keeps (is_game_won fallen placed (i, j))
              (is_game_won-Tolerable fallen placed (i, j)))
            λ k3 won l3 _.
              let hg' = Ptr-mono k k3 g (omega arith) hg in
              bool_Keeps won _ _ (λ _. win_game-Keeps g p o _ hg' hp ho refl)
                (λ _.
                  then_Keeps _ _ (set_turn-Keeps g o hg' ho) λ k4 _ l4 _. tell-Keeps o _ _ ho refl)

module _ {n k : ℕ} (m : Message) (h : Ptr n m.player) where
  pub process_game_move-Keeps :
      (fallen : Fallen)
      → HasTypes (codes "iii") m.payload
      → Keeps n k Any (process_game_move fallen m)
  unfolding process_game_move head_to_format
  process_game_move-Keeps fallen typed =
      let (a, b, c, e0, e1, e2) = three_words m.payload typed in
      then_Keeps _ _ (get_game_by_player-Keeps m.player h) λ k1 g l1 hg.
        then_Keeps _ _ (load_game-Keeps g hg) λ k2 x l2 (x_ok, _).
          then_Keeps _ _ (oponent_in-Keeps x m.player x_ok h) λ k3 o l3 ho.
            then_Keeps _ _ (word_at-Keeps m 0 a e0) λ k4 card l4 _.
              then_Keeps _ _ (word_at-Keeps m 1 b e1) λ k5 i l5 _.
                then_Keeps _ _ (word_at-Keeps m 2 c e2) λ k6 j l6 _.
                  placed-Keeps g o m.player card i j fallen (Ptr-mono k1 k6 g (omega arith) hg)
                    (Ptr-of_Object n o ho) h
