-- ===== src/SudokuServer/Tests.antt =====
-- The server on a buffer with one puzzle.
use chaonet.Common.{true, [], ◌∷◌, ◌++◌, replicate, arith}
use chaonet.Buffer.{Buffer}
use chaonet.Buffer.Layout.{IsValid}
use chaonet.SudokuServer.{on_message}
use chaonet.SudokuServer.Lines.{Served, on_message-Served}

-- 81 dots and a CRLF.
abbrev one_puzzle : Buffer
one_puzzle = record {
  storage = replicate 8 0 ++ (replicate 81 46 ++ 13 ∷ 10 ∷ []);
  reader_index = 8;
  writer_index = 91;
}

one_puzzle-IsValid : IsValid one_puzzle
one_puzzle-IsValid = omega arith

on_message-Served_example : Served true one_puzzle (on_message 100 true one_puzzle)
on_message-Served_example =
    on_message-Served 100 true one_puzzle one_puzzle-IsValid (omega arith) (omega arith)
