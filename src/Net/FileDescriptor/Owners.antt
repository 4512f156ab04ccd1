-- ===== src/Net/FileDescriptor/Owners.antt =====
-- Every descriptor of src/net/file_descriptor.cpp has one owner, and is closed once.
use cpp_kv_store.Base.{
  ℕ, ◌+◌, ◌<◌, ◌==◌, Option, none, List, [], ◌∷◌, ◌++◌, length, set, ◌≡◌, refl, arith, inl, inr,
  Bool-cases, length-set,
}
use cpp_kv_store.Base.Totals.{total, total-append, total-set}
use cpp_kv_store.Net.ResponseSequencer.Accounts.{one_if}
use cpp_kv_store.Net.FileDescriptor.{
  FileDescriptor, empty_descriptor, to_list, release, reset, destroy, Objects, no_objects, object,
  construct, move_construct, move_assign, reset_at, release_at, destroy_at, Use, constructs,
  move_constructs, move_assigns, resets, releases, destroys, Uses, unused, and_use,
}

-- How often a descriptor stands in a list, and how many objects hold it.
abbrev pub count : ℕ → List ℕ → ℕ
count fd fds = total (λ k. one_if (k == fd)) fds

abbrev pub held : ℕ → FileDescriptor → ℕ
held fd descriptor = count fd (to_list descriptor.fd)

abbrev pub holders : ℕ → List FileDescriptor → ℕ
holders fd descriptors = total (held fd) descriptors

module _ (fd : ℕ) where
  abbrev pub IsOwned : Objects → Type 0
  IsOwned s = count fd s.opened ≡ count fd s.closed + count fd s.released + holders fd s.descriptors

  counted :
      (o : Option ℕ) (fds : List ℕ)
      → count fd (to_list o ++ fds) ≡ count fd (to_list o) + count fd fds
  counted o fds = total-append (λ k. one_if (k == fd)) (to_list o) fds

  one_more :
      (descriptors : List FileDescriptor) (o : Option ℕ)
      → holders fd (descriptors ++ (record { fd = o } ∷ []))
        ≡ holders fd descriptors + count fd (to_list o)
  one_more descriptors o =
      omega (arith, total-append (held fd) descriptors (record { fd = o } ∷ []))

  replaced :
      (descriptors : List FileDescriptor) (i : ℕ) (o : Option ℕ)
      → i < length descriptors
      → holders fd (set descriptors i (record { fd = o })) + held fd (object i descriptors)
        ≡ holders fd descriptors + count fd (to_list o)
  replaced descriptors i o inside =
      total-set (held fd) descriptors i (record { fd = o }) empty_descriptor inside

  move_assign-IsOwned :
      (i j : ℕ) (s : Objects)
      → i < length s.descriptors
      → j < length s.descriptors
      → IsOwned s
      → IsOwned (move_assign i j s)
  unfolding move_assign release reset
  move_assign-IsOwned i j s inside there owned = elim (Bool-cases (i == j)) [
    | inl e ↦ rw e owned
    | inr e ↦
        let moved = set s.descriptors j (record { fd = none }) in
        let size = length-set s.descriptors j (record { fd = none }) in
        let taken = replaced s.descriptors j none there in
        let given = replaced moved i (object j s.descriptors).fd (omega arith) in
        let closes = counted (object i moved).fd s.closed in rw e (omega arith)
  ]

  Use-IsOwned : (s to : Objects) → Use s to → IsOwned s → IsOwned to
  unfolding construct move_construct reset_at release_at destroy_at release reset destroy
  Use-IsOwned s _ (constructs o) owned = omega (arith, counted o s.opened, one_more s.descriptors o)
  Use-IsOwned s _ (move_constructs j there) owned =
      let moved = set s.descriptors j (record { fd = none }) in
      let o = (object j s.descriptors).fd in
      omega (arith, replaced s.descriptors j none there, one_more moved o)
  Use-IsOwned s _ (move_assigns i j inside there) owned =
      move_assign-IsOwned i j s inside there owned
  Use-IsOwned s _ (resets i o inside) owned = omega (
    arith,
    counted o s.opened,
    counted (object i s.descriptors).fd s.closed,
    replaced s.descriptors i o inside,
  )
  Use-IsOwned s _ (releases i inside) owned =
      omega (
        arith,
        counted (object i s.descriptors).fd s.released,
        replaced s.descriptors i none inside,
      )
  Use-IsOwned s _ (destroys i inside) owned =
      omega
        (arith, counted (object i s.descriptors).fd s.closed, replaced s.descriptors i none inside)

  -- However the objects of a program are constructed, moved, assigned (an object to itself too),
  -- reset, released and destroyed: a descriptor was handed over to them as often as it has been closed
  -- and released, and is held by one of them. So a descriptor that was handed over once is closed once
  -- at most, no object holds it from then on, and it is closed or released when none holds it.
  pub Uses-owned :
      (to : Objects)
      → Uses no_objects to
      → count fd to.opened ≡ count fd to.closed + count fd to.released + holders fd to.descriptors
  Uses-owned _ unused = refl
  Uses-owned to (and_use {middle = middle} uses use_it) =
      Use-IsOwned middle to use_it (Uses-owned middle uses)
