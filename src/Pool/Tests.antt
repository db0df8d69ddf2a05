-- ===== src/Pool/Tests.antt =====
-- A pool of three loops, whose second loop is the next.
use chaonet.Common.{◌≡◌, refl, true, [], ◌∷◌, ok}
use chaonet.Pool.{Pool, calls}
use chaonet.Pool.Turns.{calls-turns}

abbrev three_loops : Pool
three_loops = record {
  base_loop = 9;
  started = true;
  num_threads = 3;
  next = 1;
  loops = 4 ∷ 5 ∷ 6 ∷ [];
}

calls-turns_example : calls 2 three_loops ≡ ok (5 ∷ 6 ∷ [], record three_loops { next = 0 })
calls-turns_example = calls-turns three_loops (4 ∷ []) 5 (6 ∷ []) refl refl
