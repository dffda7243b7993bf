-- ===== src/Server/Memory/Rules.antt =====
-- The rules for the commands that handlers are made of.
use ups_server.Base.{
  ◌++◌, sym, ap, append-nil, append_assoc, Tolerable, ℕ, zero, suc, ◌≤◌, ◌≡◌, refl, ◌∙◌, List, [],
  ◌∷◌, Option, none, some, Result, ok, fault, All, All-append, All-set, All-get, arith, length,
  length-set, get_elem?, get_elem?-lt, set,
}
use ups_server.Game.Board.{Game}
use ups_server.Game.Player.{Player}
use ups_server.Server.Memory.{
  Ptr, Object, PlayerOk, GameOk, IdsFrom, Below, MessageOk, Valid, Later, Safe, safe, crashes,
  Keeps, Any,
}
use ups_server.Server.State.{
  State, Packet, Run, M, pure, ◌>>=◌, and_then, lift, get, update, load, modify, load_game,
  modify_game, register_message, register_command,
}
use ups_server.Wire.Message.{Message}
use ups_server.Wire.Serialize.{serialize}
use ups_server.Wire.Serialize.Faults.{serialize-Tolerable}
use ups_server.Wire.Deserialize.Shape.{HasTypes}

pub Later-refl : (s : State) → Later s s
Later-refl s = ([], sym (append-nil s.p_queue))

Later-trans : (s t u : State) → Later s t → Later t u → Later s u
Later-trans s t u (xs, e) (ys, d) =
    (xs ++ ys, d ∙ (ap (λ q. q ++ ys) e ∙ append_assoc s.p_queue xs ys))

module _ {A : Type 0} {n : ℕ} where
  pub Safe-Later :
      {k k' : ℕ} {s t : State} {Q : ℕ → A → Type 0} {r : Run A}
      → k ≤ k'
      → Later s t
      → Safe n k' t Q r
      → Safe n k s Q r
  Safe-Later {s} {t} h l (safe {t = u} h' v l' q) = safe (omega arith) v (Later-trans s t u l l') q
  Safe-Later h l (crashes e) = crashes e

module _ {A : Type 0} {n k : ℕ} {s : State} {Q R : ℕ → A → Type 0} where
  Safe-weaken : {r : Run A} → ((k' : ℕ) (a : A) → Q k' a → R k' a) → Safe n k s Q r → Safe n k s R r
  Safe-weaken f (safe h v l q) = safe h v l (f _ _ q)
  Safe-weaken f (crashes e) = crashes e

module _ {A : Type 0} {n k : ℕ} {Q R : ℕ → A → Type 0} where
  pub weaken_Keeps :
      (m : M A) → ((k' : ℕ) (a : A) → Q k' a → R k' a) → Keeps n k Q m → Keeps n k R m
  weaken_Keeps m f keep s v = Safe-weaken f (keep s v)

module _ {A B : Type 0} {n : ℕ} where
  pub Safe-then :
      {k : ℕ} {s : State} {Q : ℕ → A → Type 0} {R : ℕ → B → Type 0} {r : Run A} {f : A → M B}
      → Safe n k s Q r
      → ((k' : ℕ) (a : A) → k ≤ k' → Q k' a → Keeps n k' R (f a))
      → Safe n k s R (and_then r f)
  Safe-then (safe h v l q) rest = Safe-Later h l (rest _ _ h q _ v)
  Safe-then (crashes e) rest = crashes e

  -- One command, then those that its result leads to.
  pub then_Keeps :
      {k : ℕ} {Q : ℕ → A → Type 0} {R : ℕ → B → Type 0} (m : M A) (f : A → M B)
      → Keeps n k Q m
      → ((k' : ℕ) (a : A) → k ≤ k' → Q k' a → Keeps n k' R (f a))
      → Keeps n k R (m >>= f)
  then_Keeps m f first rest s v = Safe-then (first s v) rest

pub IdsFrom-set :
    (k : ℕ) (games : List Game) (i : ℕ) (x y : Game)
    → get_elem? games i ≡ some x
    → y.id ≡ x.id
    → IdsFrom k games
    → IdsFrom k (set games i y)
IdsFrom-set k [] i x y e same h = h
IdsFrom-set k (g ∷ games) zero x y e same h = (same ∙ ground arith, h.1)
IdsFrom-set k (g ∷ games) (suc i) x y e same h = (h.0, IdsFrom-set (suc k) games i x y e same h.1)

-- The parts of the memory that a command changes, one at a time.
module _ {n k : ℕ} {s : State} (v : Valid n k s) where
  pub Valid-heap :
      (heap : List Player)
      → length heap ≡ n
      → All (PlayerOk n) heap
      → Valid n k (record s { heap = heap })
  Valid-heap heap size links = record {
    heap_size = size;
    links = links;
    game_size = v.game_size;
    boards = v.boards;
    ids = v.ids;
    next_id = v.next_id;
    listed = v.listed;
    running = v.running;
    waiting = v.waiting;
  }

  pub Valid-game_heap :
      (games : List Game)
      → length games ≡ k
      → All (GameOk n) games
      → IdsFrom 0 games
      → Valid n k (record s { game_heap = games })
  Valid-game_heap games size boards ids = record {
    heap_size = v.heap_size;
    links = v.links;
    game_size = size;
    boards = boards;
    ids = ids;
    next_id = v.next_id;
    listed = v.listed;
    running = v.running;
    waiting = v.waiting;
  }

  -- The players in the vector, the games in the list, and the commands that wait.
  pub Valid-lists :
      (players games : List ℕ) (commands : List Message)
      → All (Below n) players
      → All (Below k) games
      → All (MessageOk n) commands
      → Valid n k (record s { players = players; games = games; command_queue = commands })
  Valid-lists players games commands listed running waiting = record {
    heap_size = v.heap_size;
    links = v.links;
    game_size = v.game_size;
    boards = v.boards;
    ids = v.ids;
    next_id = v.next_id;
    listed = listed;
    running = running;
    waiting = waiting;
  }

  -- What the network has is of no account.
  pub Valid-network :
      (packets sent : List Packet) (socks closed : List ℕ)
      → Valid n k (record s {
        packet_queue = packets;
        p_queue = sent;
        client_socks = socks;
        closed = closed;
      })
  Valid-network packets sent socks closed = record {
    heap_size = v.heap_size;
    links = v.links;
    game_size = v.game_size;
    boards = v.boards;
    ids = v.ids;
    next_id = v.next_id;
    listed = v.listed;
    running = v.running;
    waiting = v.waiting;
  }

module _ {n k : ℕ} where
  pub pure-Keeps : {A : Type 0} {Q : ℕ → A → Type 0} (a : A) → Q k a → Keeps n k Q (pure a)
  pure-Keeps a q s v = safe (omega arith) v (Later-refl s) q

  pub lift-Keeps : {A : Type 0} (r : Result A) → Tolerable r → Keeps n k (λ k' a. r ≡ ok a) (lift r)
  lift-Keeps (ok a) h s v = safe (omega arith) v (Later-refl s) refl
  lift-Keeps (fault e) h s v = crashes h

  -- A well formed memory is read whole.
  pub get-Keeps : Keeps n k (λ k' t. Valid n k' t) get
  unfolding get
  get-Keeps s v = safe (omega arith) v (Later-refl s) v

  pub load-Keeps : (p : Option ℕ) → Ptr n p → Keeps n k (λ k' x. PlayerOk n x × Object n p) (load p)
  unfolding load
  load-Keeps none h s v = crashes tt
  load-Keeps (some a) h s v =
      let (x, e) = get_elem?-lt s.heap a (rw v.heap_size h) in
      rw (e, load)
        (safe (omega arith) v (Later-refl s) (All-get (PlayerOk n) s.heap a x v.links e, h))

  pub modify-Keeps :
      (p : Option ℕ) (f : Player → Player)
      → Ptr n p
      → ((x : Player) → PlayerOk n x → PlayerOk n (f x))
      → Keeps n k (λ k' u. Object n p) (modify p f)
  unfolding modify
  modify-Keeps none f h keep s v = crashes tt
  modify-Keeps (some a) f h keep s v =
      let (x, e) = get_elem?-lt s.heap a (rw v.heap_size h) in
      let links =
        All-set (PlayerOk n) s.heap a (f x) v.links
          (keep x (All-get (PlayerOk n) s.heap a x v.links e)) in
      rw (e, modify)
        (safe (omega arith)
          (Valid-heap v (set s.heap a (f x)) (length-set s.heap a (f x) ∙ v.heap_size) links)
          (Later-refl s) h)

  pub load_game-Keeps :
      (g : Option ℕ) → Ptr k g → Keeps n k (λ k' x. GameOk n x × Object k g) (load_game g)
  unfolding load_game
  load_game-Keeps none h s v = crashes tt
  load_game-Keeps (some a) h s v =
      let (x, e) = get_elem?-lt s.game_heap a (rw v.game_size h) in
      rw (e, load_game)
        (safe (omega arith) v (Later-refl s) (All-get (GameOk n) s.game_heap a x v.boards e, h))

  -- A game keeps its id.
  pub modify_game-Keeps :
      (g : Option ℕ) (f : Game → Game)
      → Ptr k g
      → ((x : Game) → GameOk n x → GameOk n (f x))
      → ((x : Game) → (f x).id ≡ x.id)
      → Keeps n k Any (modify_game g f)
  unfolding modify_game
  modify_game-Keeps none f h keep same s v = crashes tt
  modify_game-Keeps (some a) f h keep same s v =
      let (x, e) = get_elem?-lt s.game_heap a (rw v.game_size h) in
      let boards =
        All-set (GameOk n) s.game_heap a (f x) v.boards
          (keep x (All-get (GameOk n) s.game_heap a x v.boards e)) in
      rw (e, modify_game)
        (safe (omega arith)
          (Valid-game_heap v (set s.game_heap a (f x))
            (length-set s.game_heap a (f x) ∙ v.game_size) boards
            (IdsFrom-set 0 s.game_heap a x (f x) e (same x) v.ids))
          (Later-refl s) tt)

module _ {n k : ℕ} where
  pub register_message-Keeps :
      (m : Message)
      → Ptr n m.player
      → HasTypes m.msg_format m.payload
      → Keeps n k Any (register_message m)
  unfolding register_message update
  register_message-Keeps m h typed =
      then_Keeps _ _ (lift-Keeps (serialize m) (serialize-Tolerable m typed)) λ k1 sent _ _.
        then_Keeps _ _ (load-Keeps m.player h) λ k2 p _ _ s v.
          safe (omega arith) (Valid-network v s.packet_queue _ s.client_socks s.closed) (_, refl) tt

  pub register_command-Keeps : (m : Message) → MessageOk n m → Keeps n k Any (register_command m)
  unfolding register_command update
  register_command-Keeps m h s v =
      safe (omega arith)
        (Valid-lists v s.players s.games _ v.listed v.running
          (All-append (MessageOk n) s.command_queue (m ∷ []) v.waiting (h, tt)))
        (Later-refl s) tt
