-- ===== src/Http/Line.antt =====
-- The request line, printed and read back (processRequestLine of examples/http/HttpContext.cpp).
use chaonet.Common.{
  find_byte, Without, find_byte-found, find_byte-none, ℕ, ◌≡◌, ◌≢◌, refl, ap, ◌∙◌, true, false,
  List, [], ◌∷◌, ◌++◌, append-nil, Option, none, some, ok,
}
use chaonet.Http.{
  Request, Method, invalid, get, post, head, put, delete, Version, unknown, http10, http11,
  is_invalid, method_string, store_target, split_target, set_method, set_target, set_version,
  after_method, process_request_line,
}

-- A method that setMethod knows.
abbrev pub Known : Method → Type 0
Known m = is_invalid m ≡ false

-- A request line's query, with its question mark.
abbrev pub query_string : Option (List ℕ) → List ℕ
query_string none = []
query_string (some q) = 63 ∷ q

-- "HTTP/1.0" and "HTTP/1.1"
abbrev pub version_string : Version → List ℕ
version_string unknown = []
version_string http10 = 72 ∷ 84 ∷ 84 ∷ 80 ∷ 47 ∷ 49 ∷ 46 ∷ 48 ∷ []
version_string http11 = 72 ∷ 84 ∷ 84 ∷ 80 ∷ 47 ∷ 49 ∷ 46 ∷ 49 ∷ []

module _ (r : Request) where
  pub set_target-string :
      (path : List ℕ) (query : Option (List ℕ))
      → r.query ≡ []
      → Without 63 path
      → set_target r (path ++ query_string query)
        ≡ record r { path = path; query = query_string query }
  unfolding set_target store_target
  set_target-string path none empty w =
      ap (set_target r) (append-nil path)
      ∙ ap (store_target r) (find_byte-none 63 path w)
      ∙ ap (λ q. record r { path = path; query = q }) empty
  set_target-string path (some q) empty w = ap (store_target r) (find_byte-found 63 path q w)

  pub after_method-target :
      (target version : List ℕ)
      → Without 32 target
      → after_method r (target ++ 32 ∷ version) ≡ set_version (set_target r target) version
  unfolding after_method split_target
  after_method-target target version w = ap (split_target r) (find_byte-found 32 target version w)

  pub set_version-string :
      (v : Version)
      → v ≢ unknown
      → set_version r (version_string v) ≡ (true, record r { version = v })
  unfolding set_version
  set_version-string unknown ne = absurd (ne refl)
  set_version-string http10 ne = refl
  set_version-string http11 ne = refl

  pub process_request_line-method :
      (m : Method) (rest : List ℕ)
      → r.method ≡ invalid
      → Known m
      → process_request_line r (method_string m ++ 32 ∷ rest)
        ≡ ok (after_method (record r { method = m }) rest)
  unfolding process_request_line find_byte set_method
  process_request_line-method invalid rest e k = cc
  process_request_line-method get rest e k = rw (ap is_invalid e) refl
  process_request_line-method post rest e k = rw (ap is_invalid e) refl
  process_request_line-method head rest e k = rw (ap is_invalid e) refl
  process_request_line-method put rest e k = rw (ap is_invalid e) refl
  process_request_line-method delete rest e k = rw (ap is_invalid e) refl

-- A request line that is printed from a known method, a path without a space or a question mark, a query
-- without a space and a version is read back: the request gets exactly these.
pub process_request_line-string :
    (r : Request) (m : Method) (path : List ℕ) (query : Option (List ℕ)) (v : Version)
    → r.method ≡ invalid
    → r.query ≡ []
    → Known m
    → Without 63 path
    → Without 32 (path ++ query_string query)
    → v ≢ unknown
    → process_request_line r
        (method_string m ++ 32 ∷ ((path ++ query_string query) ++ 32 ∷ version_string v))
      ≡ ok (true, record r { method = m; version = v; path = path; query = query_string query })
process_request_line-string r m path query v fresh empty k w s known =
    let named = record r { method = m } in
    process_request_line-method r m ((path ++ query_string query) ++ 32 ∷ version_string v) fresh k
    ∙ ap ok (
        after_method-target named (path ++ query_string query) (version_string v) s
        ∙ ap (λ t. set_version t (version_string v)) (set_target-string named path query empty w)
        ∙ set_version-string _ v known)
