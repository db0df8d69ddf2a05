-- ===== src/Connection/Inv.antt =====
-- What holds of a connection between the calls of its loop.
use chaonet.Common.{
  ℕ, ◌≡◌, refl, ◌⊎◌, Bool, true, false, not, List, [], ◌∷◌, ◌++◌, ◌==◌, arith, length, ap, sym, ◌∙◌,
  append_assoc, ne→==-eq-false, length-append,
}
use chaonet.Buffer.{Buffer, readable_bytes, contents}
use chaonet.Buffer.Layout.{IsValid}
use chaonet.Buffer.Consume.{readable-length}
use chaonet.Channel.Events.{Watches}
use chaonet.Connection.{Connection, disconnected, Action, Functor, wrote, queue, write_complete}

abbrev pub has_output : Connection → Bool
has_output c = not (readable_bytes c.output == 0)

-- Both buffers are valid, the interest is one of the four masks, and until the connection is down it
-- includes writing exactly while there is output to send.
pub record Ready (c : Connection) : Type 0 where
  pub input_valid : IsValid c.input
  pub output_valid : IsValid c.output
  pub reads : Bool
  pub writes : Bool
  pub watches : Watches c.channel reads writes
  pub pending : (c.state ≡ disconnected) ⊎ (writes ≡ has_output c)

-- The bytes that the socket accepted, in order.
abbrev pub wired : List Action → List ℕ
wired [] = []
wired (wrote bytes ∷ rest) = bytes ++ wired rest
wired (_ ∷ rest) = wired rest

pub wired-append : (xs ys : List Action) → wired (xs ++ ys) ≡ wired xs ++ wired ys
wired-append [] ys = refl
wired-append (wrote bytes ∷ xs) ys =
    rw (wired-append xs ys) (sym (append_assoc bytes (wired xs) (wired ys)))
wired-append (x ∷ xs) ys = wired-append xs ys

-- The functors that were queued, in order.
abbrev pub functors : List Action → List Functor
functors [] = []
functors (queue f ∷ rest) = f ∷ functors rest
functors (_ ∷ rest) = functors rest

-- Whether the write-complete callback is queued.
abbrev pub tells_complete : List Action → Bool
tells_complete [] = false
tells_complete (queue write_complete ∷ rest) = true
tells_complete (_ ∷ rest) = tells_complete rest

pub tells_complete-before :
    (xs ys : List Action) → tells_complete xs ≡ true → tells_complete (xs ++ ys) ≡ true
tells_complete-before [] ys h = absurd cc
tells_complete-before (queue write_complete ∷ xs) ys h = refl
tells_complete-before (x ∷ xs) ys h = tells_complete-before xs ys h

pub empty_output : (c : Connection) → Ready c → readable_bytes c.output ≡ 0 → contents c.output ≡ []
empty_output c r e = nil (contents c.output) (sym (readable-length c.output r.output_valid) ∙ e)
  where
    nil : (xs : List ℕ) → length xs ≡ 0 → xs ≡ []
    nil [] h = refl
    nil (x ∷ xs) h = absurd (omega arith)

pub some_output :
    (b : Buffer) (x : ℕ) (xs ys : List ℕ)
    → IsValid b
    → contents b ≡ xs ++ x ∷ ys
    → (readable_bytes b == 0) ≡ false
some_output b x xs ys v e =
    ne→==-eq-false (readable_bytes b) 0
      (λ z. omega (arith, readable-length b v, ap length e, length-append xs (x ∷ ys), z))
