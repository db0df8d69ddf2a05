-- ===== src/Buffer/Lines.antt =====
-- Lines: findCRLF, and taking a line with retrieveUntil.
use chaonet.Common.{
  ℕ, ◌-◌, take, take-append, refl, ◌+◌, ◌≡◌, sym, ap, ◌∙◌, List, [], ◌∷◌, ◌++◌, append_assoc, ok,
  arith, length, drop, length-append, drop-append, ◌⊎◌,
}
use chaonet.Buffer.{Buffer, contents, retrieve_until}
use chaonet.Buffer.Layout.{IsValid}
use chaonet.Buffer.{find_crlf}
use chaonet.Buffer.Crlf.{NoCrlf, LineEnd, search_crlf, search_crlf-Search, search_crlf-found}
use chaonet.Buffer.Consume.{retrieve_until-Took}
use chaonet.Common.{none, some}

-- findCRLF returns the offset of the first CRLF among the readable bytes, and the null pointer exactly
-- when there is none.
pub find_crlf_lem :
    (b : Buffer)
    → ((line : List ℕ) × (rest : List ℕ) × (find_crlf b ≡ some (b.reader_index + length line))
        × LineEnd (contents b) line rest)
      ⊎ ((find_crlf b ≡ none) × NoCrlf (contents b))
unfolding find_crlf
find_crlf_lem b = search_crlf-Search b.reader_index (contents b)

-- Taking the line that findCRLF found, and its CRLF, leaves exactly what follows.
pub take_line :
    (b : Buffer) (line rest : List ℕ)
    → IsValid b
    → LineEnd (contents b) line rest
    → (c : Buffer) × (retrieve_until b (b.reader_index + length line + 2) ≡ ok c)
      × IsValid c
      × (contents c ≡ rest)
take_line b line rest v l =
    let (c, e, t) = retrieve_until-Took b (length line + 2) v (omega (arith, count)) in
    (
      c,
      ap (retrieve_until b) (omega arith) ∙ e,
      t.valid,
      t.left
          ∙ ap (drop (length line + 2)) (l.split ∙ sym (append_assoc line (13 ∷ 10 ∷ []) rest))
          ∙ drop-append (length line + 2) (line ++ 13 ∷ 10 ∷ []) rest
              (length-append line (13 ∷ 10 ∷ [])),
    )
  where
    count : length (contents b) ≡ length line + (2 + length rest)
    count = ap length l.split ∙ length-append line (13 ∷ 10 ∷ rest) ∙ omega arith

-- The line at the front of a buffer, as its callers take it.
pub next_line :
    (b : Buffer) (line rest : List ℕ)
    → IsValid b
    → contents b ≡ line ++ 13 ∷ 10 ∷ rest
    → NoCrlf (line ++ 13 ∷ [])
    → (find_crlf b ≡ some (b.reader_index + length line))
      × (take (b.reader_index + length line - b.reader_index) (contents b) ≡ line)
      × ((c : Buffer) × (retrieve_until b (b.reader_index + length line + 2) ≡ ok c)
          × IsValid c
          × (contents c ≡ rest))
unfolding find_crlf
next_line b line rest v e n = (
  ap (search_crlf b.reader_index) e ∙ search_crlf-found b.reader_index line rest n,
  ap (λ k. take k (contents b)) (omega arith)
      ∙ ap (take (length line)) e
      ∙ take-append (length line) line (13 ∷ 10 ∷ rest) refl,
  take_line b line rest v (record { split = e; first = n }),
)
