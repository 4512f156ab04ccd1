-- ===== src/Net/ResponseSequencer/Order.antt =====
-- The order in which src/net/response_sequencer.cpp releases responses.
use mathlib.Core.Path.{ap₂}
use cpp_kv_store.Base.{
  ℕ, ◌-◌, ◌<◌, ◌==◌, Bytes, Bool, true, false, ◌||◌, List, [], ◌∷◌, ◌++◌, length, ◌≡◌, refl, ap,
  ◌∙◌, arith, Option-cases, inl, inr,
}
use mathlib.Core.Path.{ap₂}
use mathlib.Core.Logic.{◌↔◌}
use cpp_kv_store.Base.Assoc.{nat_eq, find, find-insert}
use cpp_kv_store.Storage.Time.{word}
use cpp_kv_store.Net.ResponseSequencer.{ResponseSequencer, new_sequencer, emplace, record_response}
use cpp_kv_store.Net.ResponseSequencer.Release.{
  between, between_none, between_join, Tracks, Follows, Follows-release, release-done,
}

abbrev pub occurs : ℕ → List ℕ → Bool
occurs k [] = false
occurs k (q ∷ order) = (q == k) || occurs k order

-- The responses recorded one after another, in any order of their sequence numbers: all that is
-- released.
unfoldable pub record_all :
    (ℕ → Bytes) → List ℕ → ResponseSequencer → List Bytes × ResponseSequencer
record_all answer [] s = ([], s)
record_all answer (q ∷ order) s =
    let (ready, s') = record_response q (answer q) s in
    let (later, s'') = record_all answer order s' in (ready ++ later, s'')

-- The numbers that count as recorded once `q` is.
abbrev mark : ℕ → (ℕ → Bool) → ℕ → Bool
mark q recorded k = (q == k) || recorded k

abbrev mark_all : List ℕ → (ℕ → Bool) → ℕ → Bool
mark_all [] recorded = recorded
mark_all (q ∷ order) recorded = mark_all order (mark q recorded)

mark_all-occurs :
    (order : List ℕ) (recorded : ℕ → Bool) (k : ℕ)
    → mark_all order recorded k ≡ (occurs k order || recorded k)
mark_all-occurs [] recorded k = refl
mark_all-occurs (q ∷ order) recorded k =
    let rest = mark_all-occurs order (mark q recorded) k in ground arith

module _ (answer : ℕ → Bytes) (n : ℕ) where
  Tracks-emplace :
      (recorded : ℕ → Bool) (q : ℕ) (s : ResponseSequencer)
      → Tracks answer n recorded s
      → Tracks answer n (mark q recorded) (record s { pending = emplace q (answer q) s.pending })
  unfolding emplace
  Tracks-emplace recorded q s t = record {
    pending = λ k later. elim (Option-cases (find q s.pending)) [
      | inl e ↦ grind (arith, e, find-insert q k (answer q) s.pending, t.pending k later)
      | inr (r, e) ↦ grind (arith, e, t.pending k later)
    ];
    released = λ k earlier. let h = t.released k earlier in ground arith;
    below = t.below;
  }

  Follows-chain :
      (first second : ℕ → Bool) (s : ResponseSequencer) (ready later : List Bytes)
      (middle to : ResponseSequencer)
      → Follows answer n first s ready middle
      → Follows answer n second middle later to
      → Follows answer n second s (ready ++ later) to
  Follows-chain first second s ready later middle to f g = record {
    tracks = g.tracks;
    further = omega (arith, f.further, g.further);
    in_order =
        ap₂ ◌++◌ f.in_order g.in_order
        ∙ between_join answer s.next_expected middle.next_expected to.next_expected f.further
            g.further;
  }

  Follows-record_response :
      n < word
      → (recorded : ℕ → Bool) (q : ℕ) (s : ResponseSequencer)
      → ((k : ℕ) → mark q recorded k ≡ true → k < n)
      → Tracks answer n recorded s
      → (Follows answer n
          (mark q recorded)
          s
          (record_response q (answer q) s).0
          (record_response q (answer q) s).1)
        × (mark q recorded (record_response q (answer q) s).1.next_expected ≡ false)
  unfolding record_response
  Follows-record_response small recorded q s limit t =
      let pending = emplace q (answer q) s.pending in
      let s' = record s { pending = pending } in
      let t' = Tracks-emplace recorded q s t in
      let f = Follows-release answer n small (mark q recorded) limit (length pending) s' t' in
      (
        record { tracks = f.tracks; further = f.further; in_order = f.in_order },
        release-done answer n small (mark q recorded) limit (length pending) s' t' (omega arith),
      )

  Follows-record_all :
      n < word
      → (order : List ℕ) (recorded : ℕ → Bool) (s : ResponseSequencer)
      → ((k : ℕ) → mark_all order recorded k ≡ true → k < n)
      → Tracks answer n recorded s
      → recorded s.next_expected ≡ false
      → (Follows answer n
          (mark_all order recorded)
          s
          (record_all answer order s).0
          (record_all answer order s).1)
        × (mark_all order recorded (record_all answer order s).1.next_expected ≡ false)
  unfolding record_all
  Follows-record_all small [] recorded s limit t gap = (
    record { tracks = t; further = omega arith; in_order = between_none answer s.next_expected },
    gap,
  )
  Follows-record_all small (q ∷ order) recorded s limit t gap =
      let first =
        Follows-record_response small recorded q s
          (λ k h. limit k (let all = mark_all-occurs order (mark q recorded) k in ground arith))
          t in
      let rest =
        Follows-record_all small order (mark q recorded) (record_response q (answer q) s).1 limit
          first.0.tracks first.1 in
      (
        Follows-chain (mark q recorded) (mark_all order (mark q recorded)) s _ _ _ _ first.0 rest.0,
        rest.1,
      )

new-Tracks : (answer : ℕ → Bytes) (n : ℕ) → Tracks answer n (λ _. false) new_sequencer
unfolding find
new-Tracks answer n = record {
  pending = λ k later. refl;
  released = λ k earlier. absurd (omega arith);
  below = omega arith;
}

-- If the responses to the first n requests, fewer than 2 ^ 64, are recorded in any order, what is
-- released, all in all, is the n responses in the order of the requests.
pub record_all-in_order :
    (answer : ℕ → Bytes) (n : ℕ) (order : List ℕ)
    → n < word
    → ((k : ℕ) → (occurs k order ≡ true) ↔ (k < n))
    → (record_all answer order new_sequencer).0 ≡ between answer 0 n
record_all-in_order answer n order small all =
    let marks = mark_all-occurs order (λ _. false) in
    let f =
      Follows-record_all answer n small order (λ _. false) new_sequencer
        (λ k h. let m = marks k in let a = (all k).0 in ground arith) (new-Tracks answer n) refl in
    let end = (record_all answer order new_sequencer).1.next_expected in
    let whole : end - 0 ≡ n =
      (let m = marks end in
        let a = (all end).1 in let b = f.0.tracks.below in let g = f.1 in ground arith) in
    f.0.in_order ∙ ap (between answer 0) whole
