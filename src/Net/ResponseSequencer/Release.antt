-- ===== src/Net/ResponseSequencer/Release.antt =====
-- The loop of ResponseSequencer::record of src/net/response_sequencer.cpp.
use cpp_kv_store.Base.{
  ℕ, zero, suc, ◌+◌, ◌-◌, ◌≤◌, ◌<◌, ◌==◌, Bytes, Bool, true, false, none, some, List, [], ◌∷◌, ◌++◌,
  length, if◌then◌else◌, ◌≡◌, refl, ap, ◌∙◌, arith, Option-cases, Bool-cases, inl, inr,
}
use mathlib.Core.Path.{ap₂}
use cpp_kv_store.Base.Assoc.{nat_eq, find, find-erase, length-erase-lt}
use cpp_kv_store.Storage.Time.{word}
use cpp_kv_store.Net.ResponseSequencer.{ResponseSequencer, advance, release}

-- The responses from a sequence number on.
abbrev pub between : (ℕ → Bytes) → ℕ → ℕ → List Bytes
between answer from zero = []
between answer from (suc count) = answer from ∷ between answer (from + 1) count

-- The responses from the next expected one on that were recorded are pending, and all before it were
-- recorded.
pub record Tracks (answer : ℕ → Bytes) (n : ℕ) (recorded : ℕ → Bool) (s : ResponseSequencer)
    : Type 0 where
  pub pending :
      (k : ℕ)
      → s.next_expected ≤ k
      → find k s.pending ≡ (if recorded k then some (answer k) else none)
  pub released : (k : ℕ) → k < s.next_expected → recorded k ≡ true
  pub below : s.next_expected ≤ n

between-append :
    (answer : ℕ → Bytes) (a x y : ℕ)
    → between answer a x ++ between answer (a + x) y ≡ between answer a (x + y)
between-append answer a zero y = grind arith
between-append answer a (suc x) y =
    let moved : a + suc x ≡ a + 1 + x = omega arith in
    let counted : suc x + y ≡ suc (x + y) = omega arith in
    rw (moved, counted) (ap (λ l. answer a ∷ l) (between-append answer (a + 1) x y))

pub between_none : (answer : ℕ → Bytes) (a : ℕ) → [] ≡ between answer a (a - a)
between_none answer a = let none_left : a - a ≡ 0 = omega arith in rw none_left refl

between_next :
    (answer : ℕ → Bytes) (a b : ℕ)
    → a < b
    → answer a ∷ between answer (a + 1) (b - (a + 1)) ≡ between answer a (b - a)
between_next answer a b h =
    let one_more : b - a ≡ suc (b - (a + 1)) = omega arith in rw one_more refl

pub between_join :
    (answer : ℕ → Bytes) (a b c : ℕ)
    → a ≤ b
    → b ≤ c
    → between answer a (b - a) ++ between answer b (c - b) ≡ between answer a (c - a)
between_join answer a b c h k =
    let start : b ≡ a + (b - a) = omega arith in
    let sum : b - a + (c - b) ≡ c - a = omega arith in
    ap (λ d. between answer a (b - a) ++ between answer d (c - b)) start
    ∙ between-append answer a (b - a) (c - b)
    ∙ ap (between answer a) sum

-- What is left to show of `to`, with `ready`, that is reached from `s`.
pub record Follows (answer : ℕ → Bytes) (n : ℕ) (recorded : ℕ → Bool) (s : ResponseSequencer)
    (ready : List Bytes) (to : ResponseSequencer) : Type 0 where
  pub tracks : Tracks answer n recorded to
  pub further : s.next_expected ≤ to.next_expected
  pub in_order : ready ≡ between answer s.next_expected (to.next_expected - s.next_expected)

module _ (answer : ℕ → Bytes) (n : ℕ) (small : n < word) where
  module _ (recorded : ℕ → Bool) (limit : (k : ℕ) → recorded k ≡ true → k < n) where
    -- A pending response that is next was recorded, and is the answer.
    next_recorded :
        (s : ResponseSequencer) (r : Bytes)
        → Tracks answer n recorded s
        → find s.next_expected s.pending ≡ some r
        → (recorded s.next_expected ≡ true) × (r ≡ answer s.next_expected)
    next_recorded s r t h =
        let p = t.pending s.next_expected (omega arith) in
        elim (Bool-cases (recorded s.next_expected)) [ inl e ↦ ground arith | inr e ↦ ground arith ]

    next_missing :
        (s : ResponseSequencer)
        → Tracks answer n recorded s
        → find s.next_expected s.pending ≡ none
        → recorded s.next_expected ≡ false
    next_missing s t h =
        let p = t.pending s.next_expected (omega arith) in
        elim (Bool-cases (recorded s.next_expected)) [ inl e ↦ ground arith | inr e ↦ e ]

    next_advance :
        (s : ResponseSequencer)
        → Tracks answer n recorded s
        → recorded s.next_expected ≡ true
        → (advance s).next_expected ≡ s.next_expected + 1
    unfolding advance
    next_advance s t h = omega (arith, limit s.next_expected h)

    Tracks-advance :
        (s : ResponseSequencer)
        → Tracks answer n recorded s
        → recorded s.next_expected ≡ true
        → Tracks answer n recorded (advance s)
    Tracks-advance s t h =
        let e = next_advance s t h in
        record {
          pending = λ k later.
              unfold advance in
              grind (arith, find-erase s.next_expected k s.pending, t.pending k, e);
          released = λ k earlier. elim (Bool-cases (k == s.next_expected)) [
            | inl same ↦ ground arith
            | inr other ↦ t.released k (ground arith)
          ];
          below = omega (arith, limit s.next_expected h);
        }

    pub Follows-release :
        (fuel : ℕ) (s : ResponseSequencer)
        → Tracks answer n recorded s
        → Follows answer n recorded s (release fuel s).0 (release fuel s).1
    unfolding release
    Follows-release zero s t = record {
      tracks = t;
      further = omega arith;
      in_order = between_none answer s.next_expected;
    }
    Follows-release (suc fuel) s t = elim (Option-cases (find s.next_expected s.pending)) [
      | inl e ↦
          rw (e, release)
            (record {
              tracks = t;
              further = omega arith;
              in_order = between_none answer s.next_expected;
            })
      | inr (r, e) ↦
          let h = next_recorded s r t e in
          let a = next_advance s t h.0 in
          let f = Follows-release fuel (advance s) (Tracks-advance s t h.0) in
          let to = (release fuel (advance s)).1 in
          rw (e, release)
            (record {
              tracks = f.tracks;
              further = omega (arith, f.further, a);
              in_order =
                  ap₂ ◌∷◌ h.1 (f.in_order ∙ ap (λ b. between answer b (to.next_expected - b)) a)
                  ∙ between_next answer s.next_expected to.next_expected
                      (omega (arith, f.further, a));
            })
    ]

    -- With fuel for every pending response the loop ends at one that was not recorded.
    pub release-done :
        (fuel : ℕ) (s : ResponseSequencer)
        → Tracks answer n recorded s
        → length s.pending ≤ fuel
        → recorded (release fuel s).1.next_expected ≡ false
    unfolding release
    release-done zero s t room = elim (Option-cases (find s.next_expected s.pending)) [
      | inl e ↦ next_missing s t e
      | inr (r, e) ↦ absurd (omega (arith, length-erase-lt s.next_expected s.pending r e))
    ]
    release-done (suc fuel) s t room = elim (Option-cases (find s.next_expected s.pending)) [
      | inl e ↦ rw (e, release) (next_missing s t e)
      | inr (r, e) ↦
          rw (e, release)
            (release-done fuel (advance s) (Tracks-advance s t (next_recorded s r t e).0)
              (unfold advance in omega (arith, length-erase-lt s.next_expected s.pending r e)))
    ]
