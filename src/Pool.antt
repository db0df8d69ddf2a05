-- ===== src/Pool.antt =====
-- chaonet/src/EventLoopThreadPool.cpp and chaonet/include/EventLoopThreadPool.h: the loops that share the
-- connections of a server, in turn. A loop is a number.
pub mod Turns
pub mod Valid
mod Tests
use chaonet.Common.{
  ℕ, zero, suc, ◌+◌, Bool, true, false, not, List, [], ◌∷◌, ◌++◌, Option, none, some, Result, ok,
  err, out_of_range, ◌>>=◌, ◌>>◌, assert, leb, if◌then◌else◌, length, get_elem?, take,
}

pub record Pool : Type 0 where
  pub base_loop : ℕ
  pub started : Bool
  pub num_threads : ℕ
  pub next : ℕ
  pub loops : List ℕ

pub new_pool : ℕ → ℕ → Pool
new_pool base num_threads = record {
  base_loop = base;
  started = false;
  num_threads = num_threads;
  next = 0;
  loops = [];
}

-- `made` are the loops that EventLoopThread::startLoop returns, one for each thread.
pub start : Pool → List ℕ → Result Pool
start p made = do
  assert (not p.started)
  ok (record p { started = true; loops = p.loops ++ take p.num_threads made })

unfoldable pub next_of : Pool → Option ℕ → Result (ℕ × Pool)
next_of p none = err out_of_range
next_of p (some loop) =
    ok (loop, record p { next = if leb (length p.loops) (suc p.next) then 0 else suc p.next })

unfoldable pub next_in : Pool → List ℕ → Result (ℕ × Pool)
unfolding next_of
next_in p [] = ok (p.base_loop, p)
next_in p (x ∷ xs) = next_of p (get_elem? (x ∷ xs) p.next)

unfoldable pub get_next_loop : Pool → Result (ℕ × Pool)
unfolding next_in
get_next_loop p = next_in p p.loops

-- The loops that `n` calls give out.
pub calls : ℕ → Pool → Result (List ℕ × Pool)
unfolding get_next_loop
calls zero p = ok ([], p)
calls (suc n) p = do (loop, p') ← get_next_loop p; (loops, q) ← calls n p'; ok (loop ∷ loops, q)
