-- ===== src/Protocol/Parser/Stream.antt =====
-- `parse_command` of src/protocol/parser.cpp on a stream that arrives in pieces.
use cpp_kv_store.Base.{
  ℕ, ◌≤◌, ◌<◌, Bytes, true, List, [], ◌∷◌, ◌++◌, some, ◌≡◌, refl, sym, ◌∙◌, ◌≢◌, subst, append-nil,
  length-append, inl, inr, arith, length, ap,
}
use cpp_kv_store.Protocol.Command.{
  ParseResult, complete, need_more_data, protocol_error, Parse-cases,
}
use cpp_kv_store.Protocol.Integer.{parse_nonnegative_integer}
use cpp_kv_store.Protocol.Integer.RoundTrip.{AllDigits}
use cpp_kv_store.Protocol.Frame.{
  FrameArgs, read_multibulk_frame, malformed, array_too_long, max_array_elements,
  max_header_line_length,
}
use cpp_kv_store.Protocol.Frame.Bounds.{AllBounded, read_multibulk_frame_bounds}
use cpp_kv_store.Protocol.Frame.Append.{read_multibulk_frame-append}
use cpp_kv_store.Protocol.Frame.Encode.{
  framed, read_multibulk_frame-framed, read_multibulk_frame-split_crlf,
}
use cpp_kv_store.Protocol.Frame.Errors.{read_multibulk_frame-IsFatal}
use cpp_kv_store.Protocol.Build.{CommandResult, command, semantic_error, build_command}
use cpp_kv_store.Protocol.Parser.{result_of, parse_command}

-- The bytes that a result tells the caller to take off the input: none while more data is needed,
-- and none when the framing is broken.
abbrev pub settled : ParseResult → ℕ
settled (complete p) = p.consumed_bytes
settled need_more_data = 0
settled (protocol_error e) = e.consumed_bytes

-- A result that is final for its frame: a command, or an error behind which parsing goes on.
abbrev pub IsSettled : ParseResult → Type 0
IsSettled (complete p) = Unit {0}
IsSettled need_more_data = ⊥
IsSettled (protocol_error e) = e.recoverable ≡ true

parse_command-settled :
    (input : Bytes)
    → IsSettled (parse_command input)
    → (frame : FrameArgs) × (read_multibulk_frame input ≡ complete frame)
unfolding parse_command
parse_command-settled input h = elim (Parse-cases (read_multibulk_frame input)) [
  | inl (frame, e) ↦ (frame, e)
  | inr (inl e) ↦ ground arith
  | inr (inr (err, e)) ↦ ground (arith, read_multibulk_frame-IsFatal input err e)
]

pub parse_command-of_frame :
    (input : Bytes) (frame : FrameArgs)
    → read_multibulk_frame input ≡ complete frame
    → parse_command input ≡ result_of (build_command frame.args) frame.consumed_bytes
unfolding parse_command
parse_command-of_frame input frame e = rw e

pub settled-result_of :
    (r : CommandResult) (n : ℕ) → (settled (result_of r n) ≡ n) × IsSettled (result_of r n)
unfolding result_of
settled-result_of (command c) n = (refl, tt)
settled-result_of (semantic_error e) n = (refl, refl)

-- A result that is final for its frame takes at least one byte off the input, and at most all of
-- it; a result that is not final takes none.
pub parse_command-settled_bounds :
    (input : Bytes)
    → (IsSettled (parse_command input)
        → (0 < settled (parse_command input)) × (settled (parse_command input) ≤ length input))
      × (¬ IsSettled (parse_command input) → settled (parse_command input) ≡ 0)
parse_command-settled_bounds input = (
  λ h.
      let (frame, e) = parse_command-settled input h in
      let (low, high, _, _) = read_multibulk_frame_bounds input frame e in
      let taken = (settled-result_of (build_command frame.args) frame.consumed_bytes).0 in
      rw (parse_command-of_frame input frame e) (omega (arith, taken)),
  λ h. elim (Parse-cases (read_multibulk_frame input)) [
    | inl (frame, e) ↦
        absurd (h (rw (parse_command-of_frame input frame e) (settled-result_of _ _).1))
    | inr (inl e) ↦ unfold parse_command in rw e
    | inr (inr (err, e)) ↦ unfold parse_command in rw e (read_multibulk_frame-IsFatal input err e).1
  ],
)

-- Once a result is final for its frame, bytes that arrive behind it do not change it.
pub parse_command-append :
    (input more : Bytes)
    → IsSettled (parse_command input)
    → parse_command (input ++ more) ≡ parse_command input
parse_command-append input more h =
    let (frame, e) = parse_command-settled input h in
    parse_command-of_frame (input ++ more) frame (read_multibulk_frame-append input more frame e)
    ∙ sym (parse_command-of_frame input frame e)

-- Of a whole frame a prefix is never final: every piece but the last one of a frame in pieces
-- leaves the parser waiting, or has it refuse the framing.
pub parse_command-prefix :
    (input more : Bytes)
    → IsSettled (parse_command (input ++ more))
    → settled (parse_command (input ++ more)) ≡ length (input ++ more)
    → more ≢ []
    → ¬ IsSettled (parse_command input)
parse_command-prefix input [] h whole nonempty early = nonempty refl
parse_command-prefix input (c ∷ more) h whole nonempty early =
    let same = parse_command-append input (c ∷ more) early in
    let (_, high) = (parse_command-settled_bounds input).0 early in
    omega (arith, ap settled same, length-append input (c ∷ more))

-- A frame whose array header spells its length with 20 digits, the header's limit, is accepted when
-- it arrives in one piece; the part of it that ends between the header's carriage return and line
-- feed is refused as malformed for good.
pub parse_command-split_crlf :
    (s : Bytes) (parts : List Bytes)
    → AllDigits s
    → length s ≡ max_header_line_length
    → parse_nonnegative_integer s ≡ some (length parts)
    → length parts ≤ max_array_elements
    → AllBounded parts
    → IsSettled (parse_command (framed s parts))
      × (parse_command (b'*' ∷ (s ++ 13 ∷ [])) ≡ protocol_error (malformed array_too_long))
parse_command-split_crlf s parts digits long parsed few h =
    let whole = read_multibulk_frame-framed s parts [] digits (omega arith) parsed few h in
    (
      subst (λ input. IsSettled (parse_command input)) (append-nil (framed s parts))
          (rw (parse_command-of_frame (framed s parts ++ []) _ whole) (settled-result_of _ _).1),
      unfold parse_command in rw (read_multibulk_frame-split_crlf s digits long),
    )
