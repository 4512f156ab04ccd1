-- ===== src/Net/FileDescriptor.antt =====
-- src/net/file_descriptor.cpp and include/kvstore/net/file_descriptor.hpp. A negative number, which
-- is no descriptor, is `none`.
pub mod Owners
use cpp_kv_store.Base.{
  ℕ, Option, none, some, List, [], ◌∷◌, ◌++◌, ◌==◌, ◌<◌, if◌then◌else◌, length, get_or, set,
}

pub record FileDescriptor : Type 0 where
  pub fd : Option ℕ

abbrev pub empty_descriptor : FileDescriptor
empty_descriptor = record { fd = none }

abbrev pub to_list : Option ℕ → List ℕ
to_list none = []
to_list (some fd) = fd ∷ []

unfoldable pub release : FileDescriptor → Option ℕ × FileDescriptor
release descriptor = (descriptor.fd, record { fd = none })

-- With what is passed to ::close.
unfoldable pub reset : Option ℕ → FileDescriptor → FileDescriptor × List ℕ
reset new_fd descriptor = (record { fd = new_fd }, to_list descriptor.fd)

-- The destructor.
unfoldable pub destroy : FileDescriptor → FileDescriptor × List ℕ
unfolding reset
destroy descriptor = reset none descriptor

-- The objects of a program, in the order of their construction; what was handed over to one of them,
-- what was passed to ::close, and what was released to a caller, the last first.
pub record Objects : Type 0 where
  pub descriptors : List FileDescriptor
  pub opened : List ℕ
  pub closed : List ℕ
  pub released : List ℕ

abbrev pub no_objects : Objects
no_objects = record { descriptors = []; opened = []; closed = []; released = [] }

abbrev pub object : ℕ → List FileDescriptor → FileDescriptor
object i descriptors = get_or descriptors i empty_descriptor

-- FileDescriptor(fd), or the default constructor.
unfoldable pub construct : Option ℕ → Objects → Objects
construct fd s = record s {
  descriptors = s.descriptors ++ (record { fd = fd } ∷ []);
  opened = to_list fd ++ s.opened;
}

unfoldable pub move_construct : ℕ → Objects → Objects
move_construct j s =
    let (fd, other) = release (object j s.descriptors) in
    record s { descriptors = set s.descriptors j other ++ (record { fd = fd } ∷ []) }

unfoldable pub move_assign : ℕ → ℕ → Objects → Objects
move_assign i j s =
    if i == j
    then s
    else (let (fd, other) = release (object j s.descriptors) in
        let (this, closes) = reset fd (object i (set s.descriptors j other)) in
        record s {
          descriptors = set (set s.descriptors j other) i this;
          closed = closes ++ s.closed;
        })

unfoldable pub reset_at : ℕ → Option ℕ → Objects → Objects
reset_at i new_fd s =
    let (this, closes) = reset new_fd (object i s.descriptors) in
    record s {
      descriptors = set s.descriptors i this;
      opened = to_list new_fd ++ s.opened;
      closed = closes ++ s.closed;
    }

unfoldable pub release_at : ℕ → Objects → Objects
release_at i s =
    let (fd, this) = release (object i s.descriptors) in
    record s { descriptors = set s.descriptors i this; released = to_list fd ++ s.released }

unfoldable pub destroy_at : ℕ → Objects → Objects
destroy_at i s =
    let (this, closes) = destroy (object i s.descriptors) in
    record s { descriptors = set s.descriptors i this; closed = closes ++ s.closed }

-- One use of one object, or of two.
pub data Use : Objects → Objects → Type 0 where
  constructs : (fd : Option ℕ) {s : Objects} → Use s (construct fd s)
  move_constructs : (j : ℕ) {s : Objects} → j < length s.descriptors → Use s (move_construct j s)
  move_assigns :
      (i j : ℕ) {s : Objects}
      → i < length s.descriptors
      → j < length s.descriptors
      → Use s (move_assign i j s)
  resets :
      (i : ℕ) (new_fd : Option ℕ) {s : Objects}
      → i < length s.descriptors
      → Use s (reset_at i new_fd s)
  releases : (i : ℕ) {s : Objects} → i < length s.descriptors → Use s (release_at i s)
  destroys : (i : ℕ) {s : Objects} → i < length s.descriptors → Use s (destroy_at i s)

pub data Uses : Objects → Objects → Type 0 where
  unused : {s : Objects} → Uses s s
  and_use : {s middle to : Objects} → Uses s middle → Use middle to → Uses s to
