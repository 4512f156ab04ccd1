-- ===== src/Protocol/Frame/Append.antt =====
-- A frame that was read is read again when more input has arrived.
use cpp_kv_store.Base.{
  ℕ, zero, suc, ◌+◌, Bytes, List, [], ◌∷◌, ◌++◌, ◌≡◌, arith, drop, inl, inr, length-append,
  take-append, drop-append, get_or-append,
}
use cpp_kv_store.Protocol.Command.{complete, Parse-cases}
use cpp_kv_store.Protocol.Line.{read_line-append}
use cpp_kv_store.Protocol.Frame.{
  max_header_line_length, FrameArgs, read_length, read_body, read_bulk, read_bulks,
  read_multibulk_frame, bulk_too_long, bulk_invalid, array_too_long, array_invalid,
}
use cpp_kv_store.Protocol.Frame.Bounds.{
  read_length-complete, read_length_bounds, read_body-complete, read_bulk_bounds,
}

read_length-append :
    (long invalid s t : Bytes) (n header : ℕ)
    → read_length long invalid s ≡ complete (n, header)
    → read_length long invalid (s ++ t) ≡ complete (n, header)
read_length-append long invalid s t n header h =
    let (found, _) = read_length-complete long invalid s n header h in
    unfold read_length in rw (read_line-append s t max_header_line_length found) h

read_body-append :
    (n : ℕ) (s t body : Bytes)
    → read_body n s ≡ complete body
    → read_body n (s ++ t) ≡ complete body
read_body-append n s t body h =
    let (_, fits, _) = read_body-complete n s body h in
    unfold read_body in
    rw
      (
        take-append n s t (omega arith),
        get_or-append s t n 0 (omega arith),
        get_or-append s t (n + 1) 0 (omega arith),
        length-append s t,
      )
      (ground arith)

read_bulk-append :
    (s t arg : Bytes) (taken : ℕ)
    → read_bulk s ≡ complete (arg, taken)
    → read_bulk (s ++ t) ≡ complete (arg, taken)
unfolding read_bulk
read_bulk-append [] t arg taken h = cc
read_bulk-append (c ∷ line) t arg taken h =
    elim (Parse-cases (read_length bulk_too_long bulk_invalid line)) [
      | inr (inl e) ↦ ground arith
      | inr (inr (_, e)) ↦ ground arith
      | inl ((n, header), e) ↦ elim (Parse-cases (read_body n (drop header line))) [
        | inr (inl e') ↦ ground arith
        | inr (inr (_, e')) ↦ ground arith
        | inl (body, e') ↦
            let b = read_length_bounds bulk_too_long bulk_invalid line n header e in
            ground (
              arith,
              read_length-append bulk_too_long bulk_invalid line t n header e,
              drop-append header line t b.0,
              read_body-append n (drop header line) t body e',
            )
      ]
    ]

read_bulks-append :
    (left : ℕ) (s t : Bytes) (consumed : ℕ) (args : List Bytes) (frame : FrameArgs)
    → read_bulks left s consumed args ≡ complete frame
    → read_bulks left (s ++ t) consumed args ≡ complete frame
unfolding read_bulks
read_bulks-append zero s t consumed args frame h = h
read_bulks-append (suc left) s t consumed args frame h = elim (Parse-cases (read_bulk s)) [
  | inr (inl e) ↦ ground arith
  | inr (inr (_, e)) ↦ ground arith
  | inl ((arg, taken), e) ↦
      let b = read_bulk_bounds s arg taken e in
      rw (read_bulk-append s t arg taken e, drop-append taken s t b.0)
        (read_bulks-append left (drop taken s) t (consumed + taken) (args ++ arg ∷ []) frame
          (ground arith))
]

-- Once a frame is complete, bytes that arrive behind it do not change how it is read.
pub read_multibulk_frame-append :
    (input more : Bytes) (frame : FrameArgs)
    → read_multibulk_frame input ≡ complete frame
    → read_multibulk_frame (input ++ more) ≡ complete frame
unfolding read_multibulk_frame
read_multibulk_frame-append [] more frame h = cc
read_multibulk_frame-append (c ∷ line) more frame h =
    elim (Parse-cases (read_length array_too_long array_invalid line)) [
      | inr (inl e) ↦ ground arith
      | inr (inr (_, e)) ↦ ground arith
      | inl ((n, header), e) ↦
          let b = read_length_bounds array_too_long array_invalid line n header e in
          ground (
            arith,
            read_length-append array_too_long array_invalid line more n header e,
            drop-append header line more b.0,
            read_bulks-append n (drop header line) more (1 + header) [] frame,
          )
    ]
