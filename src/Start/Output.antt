-- ===== src/Start/Output.antt =====
-- What the program writes to its standard streams, line by line.
use ups_server.Base.{Bytes}

pub data Line : Type 0 where
  -- to `std::cout`
  out : Bytes → Line
  -- to `std::cerr`
  err : Bytes → Line
