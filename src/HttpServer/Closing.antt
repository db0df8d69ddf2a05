-- ===== src/HttpServer/Closing.antt =====
-- Which requests ask for the connection to be closed (examples/http/HttpServer.cpp).
use chaonet.Common.{
  ℕ, ◌≡◌, ◌≢◌, ◌⊎◌, inl, inr, refl, sym, ap, ◌∙◌, Bool, true, false, not, ◌&&◌, ◌||◌, Bool-cases,
  List, [], ◌∷◌, Option, none, some, arith,
}
use chaonet.Http.{Request, Version, unknown, http10, http11, eq_bytes}
use chaonet.Http.Headers.{value_of, last_value, eq_bytes-eq, eq_bytes_self}
use chaonet.Http.Whole.{Parts, Reads}
use chaonet.HttpServer.{
  get_header, connection_field, close_value, keep_alive_value, is_http10, wants_close,
}

-- A client wants the connection closed if it says so, or if it speaks HTTP/1.0 and does not ask for it
-- to be kept alive.
abbrev pub WantsClose : Parts → Type 0
WantsClose p =
    (last_value connection_field p.headers ≡ some close_value)
    ⊎ ((p.version ≡ http10) × (last_value connection_field p.headers ≢ some keep_alive_value))

or_empty : Option (List ℕ) → List ℕ
or_empty none = []
or_empty (some v) = v

get_header-value_of :
    (hs : List (List ℕ × List ℕ)) (f : List ℕ) → get_header hs f ≡ or_empty (value_of f hs)
unfolding get_header or_empty
get_header-value_of [] f = refl
get_header-value_of ((g, v) ∷ rest) f = elim (Bool-cases (eq_bytes g f)) [
  | inl y ↦ rw y refl
  | inr n ↦ rw n (get_header-value_of rest f)
]

or_empty-eq :
    (o : Option (List ℕ)) (x : ℕ) (xs : List ℕ)
    → eq_bytes (or_empty o) (x ∷ xs) ≡ true
    → o ≡ some (x ∷ xs)
unfolding or_empty
or_empty-eq none x xs h = absurd (cc (h))
or_empty-eq (some v) x xs h = ap (λ w. some w) (eq_bytes-eq v (x ∷ xs) h)

or_empty-some : (o : Option (List ℕ)) (v : List ℕ) → o ≡ some v → eq_bytes (or_empty o) v ≡ true
unfolding or_empty
or_empty-some o v e = rw e (eq_bytes_self v)

http10-eq : (v : Version) → is_http10 v ≡ true → v ≡ http10
unfolding is_http10
http10-eq http10 h = refl
http10-eq unknown h = absurd (cc (h))
http10-eq http11 h = absurd (cc (h))

http10-true : (v : Version) → v ≡ http10 → is_http10 v ≡ true
unfolding is_http10
http10-true v e = rw e refl

module _ (p : Parts) (time : ℕ) (req : Request) (r : Reads p time req) where
  field_text :
      get_header req.headers connection_field ≡ or_empty (last_value connection_field p.headers)
  field_text =
      get_header-value_of req.headers connection_field ∙ ap or_empty (r.header connection_field)

  wants_close-text : wants_close req ≡ (
      eq_bytes (or_empty (last_value connection_field p.headers)) close_value
      || (is_http10 p.version
          && not (eq_bytes (or_empty (last_value connection_field p.headers)) keep_alive_value)))
  wants_close-text =
      ap
        (λ text.
          eq_bytes text close_value
          || (is_http10 req.version && not (eq_bytes text keep_alive_value)))
        field_text
      ∙ ap
          (λ v.
            eq_bytes (or_empty (last_value connection_field p.headers)) close_value
            || (is_http10 v
                && not
                    (eq_bytes (or_empty (last_value connection_field p.headers)) keep_alive_value)))
          r.version

  pub wants_close-WantsClose : wants_close req ≡ true → WantsClose p
  wants_close-WantsClose h = elim (split (sym wants_close-text ∙ h)) [
    | inl y ↦ inl (or_empty-eq _ _ _ y)
    | inr (v, n) ↦ inr (
      http10-eq p.version v,
      λ e. cc (n, or_empty-some (last_value connection_field p.headers) keep_alive_value e),
    )
  ]
    where
      split : {a b c : Bool} → (a || (b && not c)) ≡ true → (a ≡ true) ⊎ ((b ≡ true) × (c ≡ false))
      split h = ground arith

  pub WantsClose-true : WantsClose p → wants_close req ≡ true
  WantsClose-true (inl e) =
      wants_close-text
      ∙ ap
          (λ b.
            b
            || (is_http10 p.version
                && not
                    (eq_bytes (or_empty (last_value connection_field p.headers)) keep_alive_value)))
          (or_empty-some (last_value connection_field p.headers) close_value e)
  WantsClose-true (inr (v, n)) =
      wants_close-text ∙ join _ (http10-true p.version v) (not_kept (Bool-cases _))
    where
      not_kept :
          (eq_bytes (or_empty (last_value connection_field p.headers)) keep_alive_value ≡ true)
            ⊎ (eq_bytes (or_empty (last_value connection_field p.headers)) keep_alive_value ≡ false)
          → eq_bytes (or_empty (last_value connection_field p.headers)) keep_alive_value ≡ false
      not_kept (inl y) = absurd (n (or_empty-eq _ _ _ y))
      not_kept (inr m) = m

      join : (a : Bool) {b c : Bool} → b ≡ true → c ≡ false → (a || (b && not c)) ≡ true
      join a h k = ground arith
