-- ===== src/Protocol/Frame/Errors.antt =====
-- The errors of `read_multibulk_frame` of src/protocol/parser.cpp.
use cpp_kv_store.Base.{
  ℕ, zero, suc, ◌+◌, Bytes, false, List, [], ◌∷◌, ◌++◌, ◌≡◌, arith, drop, inl, inr,
}
use cpp_kv_store.Protocol.Command.{ProtocolError, protocol_error, Parse-cases}
use cpp_kv_store.Protocol.Frame.{
  malformed, read_length, read_body, read_bulk, read_bulks, read_multibulk_frame, bulk_too_long,
  bulk_invalid, array_too_long, array_invalid,
}

abbrev pub IsFatal : ProtocolError → Type 0
IsFatal e = (e.recoverable ≡ false) × (e.consumed_bytes ≡ 0)

read_length-IsFatal :
    (long invalid s : Bytes) (e : ProtocolError)
    → read_length long invalid s ≡ protocol_error e
    → IsFatal e
unfolding read_length malformed
read_length-IsFatal long invalid s e h = ground arith

read_body-IsFatal :
    (n : ℕ) (s : Bytes) (e : ProtocolError) → read_body n s ≡ protocol_error e → IsFatal e
unfolding read_body malformed
read_body-IsFatal n s e h = ground arith

read_bulk-IsFatal : (s : Bytes) (e : ProtocolError) → read_bulk s ≡ protocol_error e → IsFatal e
unfolding read_bulk malformed
read_bulk-IsFatal [] e h = cc
read_bulk-IsFatal (c ∷ line) e h =
    elim (Parse-cases (read_length bulk_too_long bulk_invalid line)) [
      | inr (inl e₁) ↦ ground arith
      | inr (inr (err, e₁)) ↦ ground (arith, read_length-IsFatal _ _ line err e₁)
      | inl ((n, header), e₁) ↦ elim (Parse-cases (read_body n (drop header line))) [
        | inr (inl e₂) ↦ ground arith
        | inr (inr (err, e₂)) ↦ ground (arith, read_body-IsFatal n (drop header line) err e₂)
        | inl (body, e₂) ↦ ground arith
      ]
    ]

read_bulks-IsFatal :
    (left : ℕ) (s : Bytes) (consumed : ℕ) (args : List Bytes) (e : ProtocolError)
    → read_bulks left s consumed args ≡ protocol_error e
    → IsFatal e
unfolding read_bulks
read_bulks-IsFatal zero s consumed args e h = cc
read_bulks-IsFatal (suc left) s consumed args e h = elim (Parse-cases (read_bulk s)) [
  | inr (inl e₁) ↦ ground arith
  | inr (inr (err, e₁)) ↦ ground (arith, read_bulk-IsFatal s err e₁)
  | inl ((arg, taken), e₁) ↦
      read_bulks-IsFatal left (drop taken s) (consumed + taken) (args ++ arg ∷ []) e (ground arith)
]

pub read_multibulk_frame-IsFatal :
    (input : Bytes) (e : ProtocolError) → read_multibulk_frame input ≡ protocol_error e → IsFatal e
unfolding read_multibulk_frame malformed
read_multibulk_frame-IsFatal [] e h = cc
read_multibulk_frame-IsFatal (c ∷ line) e h =
    elim (Parse-cases (read_length array_too_long array_invalid line)) [
      | inr (inl e₁) ↦ ground arith
      | inr (inr (err, e₁)) ↦ ground (arith, read_length-IsFatal _ _ line err e₁)
      | inl ((n, header), e₁) ↦
          ground (arith, read_bulks-IsFatal n (drop header line) (1 + header) [] e)
    ]
