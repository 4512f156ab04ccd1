-- ===== src/Storage/Heap.antt =====
-- `ExpirationCandidate` and `ExpirationCandidateOrder` of src/storage/shard.hpp, with the
-- std::priority_queue over them as a list, the soonest deadline first. Of candidates with equal
-- deadlines the one that was pushed first comes first; std::priority_queue leaves that order open.
use cpp_kv_store.Base.{
  ℕ, ◌≤◌, Bytes, List, [], ◌∷◌, ltb, if◌then◌else◌, ◌≡◌, refl, ◌⊎◌, inl, inr, arith, ap, Bool-cases,
}
use cpp_kv_store.Storage.Time.{TimePoint}

pub record ExpirationCandidate : Type 0 where
  pub deadline : TimePoint
  pub generation : ℕ
  pub key : Bytes

abbrev pub Heap : Type 0
Heap = List ExpirationCandidate

unfoldable pub push : ExpirationCandidate → Heap → Heap
push c [] = c ∷ []
push c (top ∷ heap) = if ltb c.deadline top.deadline then c ∷ top ∷ heap else top ∷ push c heap

-- The candidate is in the heap.
abbrev pub Holds : ExpirationCandidate → Heap → Type 0
Holds c [] = ⊥
Holds c (top ∷ heap) = (top ≡ c) ⊎ Holds c heap

abbrev pub AllFrom : TimePoint → Heap → Type 0
AllFrom t [] = Unit {0}
AllFrom t (top ∷ heap) = (t ≤ top.deadline) × AllFrom t heap

-- Soonest first.
abbrev pub IsSorted : Heap → Type 0
IsSorted [] = Unit {0}
IsSorted (top ∷ heap) = AllFrom top.deadline heap × IsSorted heap

pub AllFrom-mono : (s t : TimePoint) (heap : Heap) → s ≤ t → AllFrom t heap → AllFrom s heap
AllFrom-mono s t [] h all = tt
AllFrom-mono s t (top ∷ heap) h all = (omega arith, AllFrom-mono s t heap h all.1)

AllFrom-push :
    (t : TimePoint) (c : ExpirationCandidate) (heap : Heap)
    → t ≤ c.deadline
    → AllFrom t heap
    → AllFrom t (push c heap)
unfolding push
AllFrom-push t c [] h all = (h, tt)
AllFrom-push t c (top ∷ heap) h all = ground (arith, AllFrom-push t c heap h all.1)

pub push-IsSorted : (c : ExpirationCandidate) (heap : Heap) → IsSorted heap → IsSorted (push c heap)
unfolding push
push-IsSorted c [] sorted = (tt, tt)
push-IsSorted c (top ∷ heap) sorted = ground (
  arith,
  push-IsSorted c heap sorted.1,
  AllFrom-push top.deadline c heap,
  AllFrom-mono c.deadline top.deadline heap,
)

-- A push adds its candidate and keeps the others.
pub push-Holds_self : (c : ExpirationCandidate) (heap : Heap) → Holds c (push c heap)
unfolding push
push-Holds_self c [] = inl refl
push-Holds_self c (top ∷ heap) = elim (Bool-cases (ltb c.deadline top.deadline)) [
  | inl e ↦ rw e (inl refl)
  | inr e ↦ rw e (inr (push-Holds_self c heap))
]

pub push-Holds : (c d : ExpirationCandidate) (heap : Heap) → Holds d heap → Holds d (push c heap)
unfolding push
push-Holds c d (top ∷ heap) h = elim (Bool-cases (ltb c.deadline top.deadline)) [
  | inl e ↦ rw e (inr h)
  | inr e ↦ rw e (elim h [ inl p ↦ inl p | inr q ↦ inr (push-Holds c d heap q) ])
]
push-Holds c d [] h = elim h [ ]

pub AllFrom-Holds :
    (t : TimePoint) (c : ExpirationCandidate) (heap : Heap)
    → AllFrom t heap
    → Holds c heap
    → t ≤ c.deadline
AllFrom-Holds t c [] all h = elim h [ ]
AllFrom-Holds t c (top ∷ heap) all (inl e) =
    omega (arith, all.0, ap (λ (d : ExpirationCandidate). d.deadline) e)
AllFrom-Holds t c (top ∷ heap) all (inr h) = AllFrom-Holds t c heap all.1 h
