-- ===== src/Socks/Partial.antt =====
-- Requests that have not come whole.
use chaonet.Common.{
  ℕ, ◌+◌, ◌≤◌, ◌≡◌, refl, sym, ap, ◌∙◌, ◌⊎◌, inl, inr, Bool, false, List, [], ◌∷◌, ◌++◌, Option,
  none, some, ok, ltb, lt→ltb, ltb→lt, le→ltb-eq-false, if_true, if_false, Bool-cases, length,
  find_byte, find_byte-found, find_byte-none, Without, arith,
}
use chaonet.Buffer.{Buffer, contents, readable_bytes}
use chaonet.Buffer.Bytes.{swap32, load32}
use chaonet.Buffer.Layout.{IsValid}
use chaonet.Buffer.Consume.{readable-length}
use chaonet.Socks.{Tunnels, incomplete, host_name, after_user, header_of, answer, on_server_message}
use chaonet.Socks.Requests.{
  Request, IsRequest, request_text, user_text, host_text, ip_bytes, NameFits, ip_number, number-ip,
}

-- A proper prefix of a text that has a byte once: the byte is not in it, or what is before the byte is.
prefix-Without :
    (b : ℕ) (xs ys p : List ℕ) (x : ℕ) (more : List ℕ)
    → Without b xs
    → xs ++ b ∷ ys ≡ p ++ x ∷ more
    → Without b p ⊎ ((q : List ℕ) × (p ≡ xs ++ b ∷ q) × (ys ≡ q ++ x ∷ more))
prefix-Without b xs ys [] x more w e = inl tt
prefix-Without b [] ys (z ∷ p) x more w e =
    let same : b ≡ z = ground arith in inr (p, ap (λ c. c ∷ p) (sym same), ground arith)
prefix-Without b (y ∷ xs) ys (z ∷ p) x more (ne, w) e =
    let same : y ≡ z = ground arith in
    elim (prefix-Without b xs ys p x more w (ground arith)) [
      | inl none_there ↦ inl (λ h. ne (same ∙ h), none_there)
      | inr (q, f, g) ↦ inr (q, ap (◌∷◌ z) f ∙ ap (λ c. c ∷ (xs ++ b ∷ q)) (sym same), g)
    ]

-- Of two texts that begin the same, the longer one begins with the shorter one.
longer :
    (xs ys zs ws : List ℕ)
    → xs ++ ys ≡ zs ++ ws
    → length xs ≤ length zs
    → (p : List ℕ) × (zs ≡ xs ++ p) × (ys ≡ p ++ ws)
longer [] ys zs ws e h = (zs, refl, e)
longer (x ∷ xs) ys [] ws e h = absurd (omega arith)
longer (x ∷ xs) ys (z ∷ zs) ws e h =
    let same : x ≡ z = ground arith in
    let (p, f, g) = longer xs ys zs ws (ground arith) (omega arith) in
    (p, ap (◌∷◌ z) f ∙ ap (λ c. c ∷ (xs ++ p)) (sym same), g)

ends_late : {A : Type 0} (q : List ℕ) (x : ℕ) (more : List ℕ) → [] ≡ q ++ x ∷ more → A
ends_late [] x more e = absurd (omega (arith, ap length e))
ends_late (y ∷ q) x more e = absurd (omega (arith, ap length e))

module _ (resolve : List ℕ → Option (List ℕ)) where
  host_name-incomplete :
      (name : List ℕ) (at : ℕ) (q : List ℕ) (x : ℕ) (more : List ℕ)
      → Without 0 name
      → name ++ 0 ∷ [] ≡ q ++ x ∷ more
      → host_name resolve at (find_byte 0 q) ≡ incomplete
  unfolding host_name
  host_name-incomplete name at q x more w e = elim (prefix-Without 0 name [] q x more w e) [
    | inl none_there ↦ ap (host_name resolve at) (find_byte-none 0 q none_there)
    | inr (p, f, g) ↦ ends_late p x more g
  ]

  after_user-incomplete :
      (ip : List ℕ) (n : ℕ) (host : Option (List ℕ)) (at : ℕ) (q : List ℕ) (x : ℕ) (more : List ℕ)
      → swap32 (load32 ip) ≡ n
      → NameFits host n
      → host_text host ≡ q ++ x ∷ more
      → after_user resolve ip at (0 ∷ q) ≡ incomplete
  unfolding after_user
  after_user-incomplete ip n none at q x more e big f = ends_late q x more f
  after_user-incomplete ip n (some name) at q x more e (small, w) f =
      if_true _ _ _ (lt→ltb (swap32 (load32 ip)) 256 (omega (arith, e, small)))
      ∙ host_name-incomplete name (at + 1) q x more w f

  -- The first eight bytes came, and not all of the rest.
  header_of-incomplete :
      (r : Request) (p : List ℕ) (x : ℕ) (more : List ℕ)
      → IsRequest r
      → user_text r ≡ p ++ x ∷ more
      → header_of resolve (4 ∷ 1 ∷ r.port_high ∷ r.port_low ∷ (ip_bytes r ++ p)) ≡ incomplete
  unfolding header_of after_user
  header_of-incomplete r p x more v e =
      elim (prefix-Without 0 r.user (host_text r.host) p x more v.no_nul e) [
        | inl none_there ↦
            ap (λ f. after_user resolve (ip_bytes r) (8 + length f.0) f.1)
              (find_byte-none 0 p none_there)
        | inr (q, f, g) ↦
            ap (λ f. after_user resolve (ip_bytes r) (8 + length f.0) f.1)
              (ap (find_byte 0) f ∙ find_byte-found 0 r.user q v.no_nul)
            ∙ after_user-incomplete (ip_bytes r) (ip_number r) r.host (8 + length r.user) q x more
                (number-ip r v) v.named g
      ]

-- A request that has not come whole is left in the buffer, and nothing is done, however it is cut.
pub on_server_message-incomplete :
    (resolve : List ℕ → Option (List ℕ)) (tunnels : Tunnels) (conn : ℕ) (b : Buffer)
    (has_context : Bool) (r : Request) (x : ℕ) (more : List ℕ)
    → IsValid b
    → tunnels conn ≡ false
    → IsRequest r
    → request_text r ≡ contents b ++ x ∷ more
    → length (contents b) ≤ 128
    → on_server_message resolve tunnels conn b has_context ≡ ok (tunnels, b, [])
unfolding on_server_message answer
on_server_message-incomplete resolve tunnels conn b has_context r x more v new w e short =
    if_false _ _ _ new
    ∙ if_false _ _ _
        (le→ltb-eq-false 128 (readable_bytes b) (omega (arith, readable-length b v, short)))
    ∙ elim (Bool-cases (ltb 8 (readable_bytes b))) [
      | inl enough ↦
          let (p, begins, left) =
            longer (4 ∷ 1 ∷ r.port_high ∷ r.port_low ∷ ip_bytes r) (user_text r) (contents b)
              (x ∷ more) e
              (omega (arith, ltb→lt 8 (readable_bytes b) enough, readable-length b v)) in
          if_true _ _ _ enough
          ∙ ap (answer tunnels conn b)
              (ap (header_of resolve) begins ∙ header_of-incomplete resolve r p x more w left)
      | inr few ↦ if_false _ _ _ few
    ]
