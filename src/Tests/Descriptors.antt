-- ===== src/Tests/Descriptors.antt =====
-- The objects that own descriptors.
use cpp_kv_store.Base.{◌+◌, ◌<◌, none, some, [], ◌∷◌, ◌≡◌, arith}
use cpp_kv_store.Net.FileDescriptor.{
  Objects, no_objects, construct, move_construct, move_assign, destroy_at, release, reset, destroy,
  constructs, move_assigns, destroys, Uses, unused, and_use,
}
use cpp_kv_store.Net.FileDescriptor.Owners.{count, holders, Uses-owned}

-- One object gets a descriptor, another takes it over and is assigned to itself, and both go.
abbrev owners : Objects
owners = record {
  descriptors = record { fd = none } ∷ record { fd = none } ∷ [];
  opened = 8 ∷ [];
  closed = 8 ∷ [];
  released = [];
}

first : 0 < 2
first = omega arith

second : 1 < 2
second = omega arith

takes_over : Uses no_objects owners
unfolding construct move_construct move_assign destroy_at release reset destroy
takes_over =
    let made = and_use (and_use unused (constructs (some 8))) (constructs none) in
    let assigned = and_use made (move_assigns 1 0 second first) in
    let again = and_use assigned (move_assigns 1 1 second second) in
    and_use (and_use again (destroys 1 second)) (destroys 0 first)

Uses-owned_example :
    count 8 owners.opened
    ≡ count 8 owners.closed + count 8 owners.released + holders 8 owners.descriptors
Uses-owned_example = Uses-owned 8 owners takes_over
