-- ===== src/Protocol/Frame/Bounds.antt =====
-- A frame that was read lies in the input, and within the limits on its elements.
use cpp_kv_store.Base.{
  ℕ, zero, suc, ◌+◌, ◌≤◌, ◌<◌, Bytes, List, [], ◌∷◌, ◌++◌, ◌≡◌, arith, length, drop, take, inl, inr,
  ap, length-append, length-take, length-drop,
}
use cpp_kv_store.Protocol.Command.{complete, Parse-cases}
use cpp_kv_store.Protocol.Line.{LineStatus, read_line, read_line_bounds}
use cpp_kv_store.Protocol.Frame.{
  max_array_elements, max_bulk_string_length, max_header_line_length, FrameArgs, read_length,
  read_body, read_bulk, bulk_too_long, bulk_invalid, array_too_long, array_invalid, read_bulks,
  read_multibulk_frame,
}

pub read_length-complete :
    (long invalid s : Bytes) (n header : ℕ)
    → read_length long invalid s ≡ complete (n, header)
    → ((read_line s max_header_line_length).status ≡ LineStatus.found)
      × (header ≡ (read_line s max_header_line_length).consumed)
unfolding read_length
read_length-complete long invalid s n header h = ground arith

pub read_length_bounds :
    (long invalid s : Bytes) (n header : ℕ)
    → read_length long invalid s ≡ complete (n, header)
    → (header ≤ length s) × (2 ≤ header)
read_length_bounds long invalid s n header h =
    let (found, taken) = read_length-complete long invalid s n header h in
    let bounds = read_line_bounds s max_header_line_length found in
    omega (arith, bounds.0, bounds.1)

pub read_body-complete :
    (n : ℕ) (s body : Bytes)
    → read_body n s ≡ complete body
    → (n ≤ max_bulk_string_length) × (n + 2 ≤ length s) × (body ≡ take n s)
unfolding read_body
read_body-complete n s body h = ground arith

-- What a round of the loop has read: the '$', the header and the body.
pub record BulkRead (s arg : Bytes) (taken : ℕ) : Type 0 where
  pub line : Bytes
  pub body_len : ℕ
  pub header : ℕ
  pub starts : s ≡ b'$' ∷ line
  pub header_read : read_length bulk_too_long bulk_invalid line ≡ complete (body_len, header)
  pub body_read : read_body body_len (drop header line) ≡ complete arg
  pub taken_all : taken ≡ 1 + header + (body_len + 2)

pub read_bulk-complete :
    (s arg : Bytes) (taken : ℕ) → read_bulk s ≡ complete (arg, taken) → BulkRead s arg taken
unfolding read_bulk
read_bulk-complete [] arg taken h = cc
read_bulk-complete (c ∷ line) arg taken h =
    elim (Parse-cases (read_length bulk_too_long bulk_invalid line)) [
      | inr (inl e) ↦ ground arith
      | inr (inr (_, e)) ↦ ground arith
      | inl ((n, header), e) ↦ elim (Parse-cases (read_body n (drop header line))) [
        | inr (inl e') ↦ ground arith
        | inr (inr (_, e')) ↦ ground arith
        | inl (body, e') ↦ record {
          line = line;
          body_len = n;
          header = header;
          starts = ground arith;
          header_read = e;
          body_read = ground arith;
          taken_all = ground arith;
        }
      ]
    ]

-- A bulk string that was read, with its header and terminator, lies in the input.
pub read_bulk_bounds :
    (s arg : Bytes) (taken : ℕ)
    → read_bulk s ≡ complete (arg, taken)
    → (taken ≤ length s) × (0 < taken) × (length arg ≤ max_bulk_string_length)
read_bulk_bounds s arg taken h =
    let r = read_bulk-complete s arg taken h in
    let header =
      read_length_bounds bulk_too_long bulk_invalid r.line r.body_len r.header r.header_read in
    let body = read_body-complete r.body_len (drop r.header r.line) arg r.body_read in
    omega (
      arith,
      header.0,
      body.0,
      body.1,
      r.taken_all,
      ap length r.starts,
      ap length body.2,
      length-drop r.header r.line,
      length-take r.body_len (drop r.header r.line) (omega (arith, body.1)),
    )

abbrev pub AllBounded : List Bytes → Type 0
AllBounded [] = Unit {0}
AllBounded (a ∷ args) = (length a ≤ max_bulk_string_length) × AllBounded args

AllBounded-snoc :
    (args : List Bytes) (a : Bytes)
    → AllBounded args
    → length a ≤ max_bulk_string_length
    → AllBounded (args ++ a ∷ [])
AllBounded-snoc [] a h k = (k, tt)
AllBounded-snoc (b ∷ args) a h k = (h.0, AllBounded-snoc args a h.1 k)

-- What the loop returns, from the elements that it still reads and those that it has.
pub read_bulks_bounds :
    (left : ℕ) (s : Bytes) (consumed : ℕ) (args : List Bytes) (frame : FrameArgs)
    → read_bulks left s consumed args ≡ complete frame
    → AllBounded args
    → (consumed + left ≤ frame.consumed_bytes)
      × (frame.consumed_bytes ≤ consumed + length s)
      × (length frame.args ≡ length args + left)
      × AllBounded frame.args
unfolding read_bulks
read_bulks_bounds zero s consumed args frame h all = ground arith
read_bulks_bounds (suc left) s consumed args frame h all = elim (Parse-cases (read_bulk s)) [
  | inr (inl e) ↦ ground arith
  | inr (inr (_, e)) ↦ ground arith
  | inl ((arg, taken), e) ↦
      let b = read_bulk_bounds s arg taken e in
      let ih =
        read_bulks_bounds left (drop taken s) (consumed + taken) (args ++ arg ∷ []) frame
          (ground arith) (AllBounded-snoc args arg all b.2) in
      (
        omega (arith, ih.0, b.1),
        omega (arith, ih.1, b.0, length-drop taken s),
        omega (arith, ih.2, length-append args (arg ∷ [])),
        ih.3,
      )
]

-- A complete frame takes at least one byte, lies in the input, and keeps to the limits.
pub read_multibulk_frame_bounds :
    (input : Bytes) (frame : FrameArgs)
    → read_multibulk_frame input ≡ complete frame
    → (0 < frame.consumed_bytes)
      × (frame.consumed_bytes ≤ length input)
      × (length frame.args ≤ max_array_elements)
      × AllBounded frame.args
unfolding read_multibulk_frame
read_multibulk_frame_bounds [] frame h = cc
read_multibulk_frame_bounds (c ∷ line) frame h =
    elim (Parse-cases (read_length array_too_long array_invalid line)) [
      | inr (inl e) ↦ ground arith
      | inr (inr (_, e)) ↦ ground arith
      | inl ((n, header), e) ↦
          let b = read_length_bounds array_too_long array_invalid line n header e in
          let r = read_bulks_bounds n (drop header line) (1 + header) [] frame (ground arith) tt in
          (
            omega (arith, r.0),
            omega (arith, r.1, b.0, length-drop header line),
            ground (arith, r.2),
            r.3,
          )
    ]
