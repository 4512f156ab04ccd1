-- ===== src/Protocol/Line.antt =====
-- `LineStatus`, `LineResult` and `read_line` of src/protocol/parser.cpp, with std::string_view::find.
use cpp_kv_store.Base.{
  ℕ, suc, ◌+◌, ◌≤◌, Bytes, ◌&&◌, Option, none, some, [], ◌∷◌, ◌++◌, ltb, ◌==◌, if◌then◌else◌, ◌≡◌,
  arith, length, take, Option-cases, inl, inr, take-append,
}
use mathlib.Core.Option

pub data LineStatus : Type 0 where
  found need_more_data too_long : LineStatus

pub record LineResult : Type 0 where
  pub status : LineStatus
  pub content : Bytes
  pub consumed : ℕ

-- input.find("\r\n")
unfoldable pub find_crlf : Bytes → Option ℕ
find_crlf [] = none
find_crlf (c ∷ []) = none
find_crlf (c ∷ d ∷ rest) =
    if (c == 13) && (d == 10) then some 0 else Option.map suc (find_crlf (d ∷ rest))

abbrev no_line : LineStatus → LineResult
no_line status = record { status = status; content = []; consumed = 0 }

-- What is done with the position of the first CRLF.
unfoldable pub line_at : Bytes → ℕ → Option ℕ → LineResult
line_at input max_length none =
    if ltb max_length (length input) then no_line too_long else no_line need_more_data
line_at input max_length (some pos) =
    if ltb max_length pos
    then no_line too_long
    else record { status = found; content = take pos input; consumed = pos + 2 }

unfoldable pub read_line : Bytes → ℕ → LineResult
unfolding line_at
read_line input max_length = line_at input max_length (find_crlf input)

-- The line break that is found lies in the input.
pub find_crlf-le : (s : Bytes) (p : ℕ) → find_crlf s ≡ some p → p + 2 ≤ length s
unfolding find_crlf
find_crlf-le [] p h = cc
find_crlf-le (c ∷ []) p h = cc
find_crlf-le (c ∷ d ∷ rest) p h = elim (Option-cases (find_crlf (d ∷ rest))) [
  | inl e ↦ ground arith
  | inr (q, e) ↦ ground (arith, find_crlf-le (d ∷ rest) q)
]

-- More input behind a line break does not move the first one.
pub find_crlf-append : (s t : Bytes) (p : ℕ) → find_crlf s ≡ some p → find_crlf (s ++ t) ≡ some p
unfolding find_crlf
find_crlf-append [] t p h = cc
find_crlf-append (c ∷ []) t p h = cc
find_crlf-append (c ∷ d ∷ rest) t p h = elim (Option-cases (find_crlf (d ∷ rest))) [
  | inl e ↦ ground arith
  | inr (q, e) ↦ ground (arith, find_crlf-append (d ∷ rest) t q)
]

-- A line that was read takes its bytes from the input.
pub read_line_bounds :
    (s : Bytes) (m : ℕ)
    → (read_line s m).status ≡ found
    → ((read_line s m).consumed ≤ length s) × (2 ≤ (read_line s m).consumed)
unfolding read_line
read_line_bounds s m h = elim (Option-cases (find_crlf s)) [
  | inl e ↦ ground arith
  | inr (p, e) ↦ ground (arith, find_crlf-le s p)
]

-- A line that was read is read again, unchanged, when more input has arrived.
pub read_line-append :
    (s t : Bytes) (m : ℕ) → (read_line s m).status ≡ found → read_line (s ++ t) m ≡ read_line s m
unfolding read_line
read_line-append s t m h = elim (Option-cases (find_crlf s)) [
  | inl e ↦ ground arith
  | inr (p, e) ↦
      rw (e, find_crlf-append s t p e) (ground (arith, take-append p s t, find_crlf-le s p e))
]
