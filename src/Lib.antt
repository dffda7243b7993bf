-- ===== src/Lib.antt =====
-- The game server under UPSServer, a C++ program: clients connect over TCP, choose a name, ask each
-- other for a game, and play on a board of 8 by 8 squares. Four threads share the players and the
-- games: the server reads the sockets, the packet manager parses what was read, the command manager
-- handles the commands, and the sender writes the answers.
--
-- How the files correspond to the code:
--   Base      shared names: Booleans, lists over the native numbers, faults and results
--   Wire      UPSServer/datatypes/Message.h and Message.cpp (Wire/Message, Wire/Codes) and
--             UPSServer/helpers/Serializer.cpp (Wire/Serialize, Wire/Deserialize, on the arrays
--             of Wire/Array); Wire/Format is the packet format, described apart from the code
--   Queue     UPSServer/datatypes/ConcurrentQueue.cpp; Queue/Threads is its mutex, with any number of
--             threads in any order of their accesses
--   Game      UPSServer/game/Player.h and Player.cpp (Game/Player), UPSServer/game/Game.h and
--             Game.cpp (Game/Board, Game/Decimal), and controlBlack, controlWhite and isGameWon of
--             UPSServer/game/GameManager.cpp (Game/Control)
--   Server    what the threads share and Sender::registerMessage of UPSServer/network/Sender.cpp
--             (Server/State), the list of games of UPSServer/game/GameManager.cpp (Server/Games),
--             the vector of players of UPSServer/network/Server.cpp (Server/Players), when the
--             memory is well formed (Server/Memory), and who plays in which game by name
--             (Server/Seating)
--   Commands  the handlers of UPSServer/network/CommandManager.cpp (Commands/Lobby,
--             Commands/Match), the rounds of the four loops (Commands/Dispatch), any order of
--             rounds (Commands/Events), and messages on their way through all threads
--             (Commands/Journey)
--   Network   Server::init, Server::acceptNewConnection and the select loop of Server::run of
--             UPSServer/network/Server.cpp, with the results of the system calls as arguments
--   Start     UPSServer/helpers/MainOptions.h and MainOptions.cpp (Start/Options),
--             UPSServer/helpers/Logger.h and Logger.cpp (Start/Logger), and UPSServer/main.cpp
--             (Start/Parameters, Start/Main)
--   Tests     the theorems at concrete inputs
--
-- A C++ function f is the definition of that name in snake case. A pointer to a player or a game is
-- the position of the object in a list that only grows, or none for null: the server deletes
-- neither. A command is a function from the shared memory to a result and the memory after it, or
-- to a fault: where the C++ throws, follows a null pointer, leaves an array or reaches the end of a
-- function without a return, the run ends there. An access through an address of no object is told
-- apart from these. An int is its pattern of 32 bits, and wrap-around is written out. The
-- pointers that Game::Game leaves unset are what the memory held, which is free.
--
-- An operation of a queue is one step elsewhere; Queue/Threads has its mutex. A round of a
-- thread is one step, so races between two threads on players and games inside a round are not
-- modelled; which round comes next, and what the network brings, is free. The search for a winning
-- line is on fuel of 65, which is enough since each call but the last marks one of 64 squares.
--
-- Not modelled: that memory is freed; what the socket calls do beyond what they return; what other
-- components write to the log, since nothing reads it back; and the Java client under ups-client.
pub mod Base
pub mod Wire
pub mod Queue
pub mod Game
pub mod Server
pub mod Commands
pub mod Network
pub mod Start
pub mod Tests
