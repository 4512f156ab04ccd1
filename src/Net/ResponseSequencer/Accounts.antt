-- ===== src/Net/ResponseSequencer/Accounts.antt =====
-- Where every sequence number of src/net/response_sequencer.cpp is: still to be recorded, pending, or
-- released.
use cpp_kv_store.Base.{
  ℕ, zero, suc, ◌+◌, ◌-◌, ◌≤◌, ◌<◌, ◌==◌, Bytes, Bool, Option, none, some, length, ltb,
  if◌then◌else◌, ◌≡◌, refl, arith, [], ◌∷◌, Option-cases, inl, inr,
}
use cpp_kv_store.Base.Assoc.{Assoc, nat_eq, find, find-erase, find-insert, length-erase-lt}
use cpp_kv_store.Storage.Time.{word}
use cpp_kv_store.Net.ResponseSequencer.{
  ResponseSequencer, new_sequencer, take_request_sequence, in_flight_count, emplace, advance,
  release, record_response,
}

abbrev pub one_if : Bool → ℕ
one_if b = if b then 1 else 0

abbrev pub one_if_some : Option Bytes → ℕ
one_if_some none = 0
one_if_some (some _) = 1

-- Each number handed out is at one place: `out` counts those whose responses are still to come.
pub record Accounts (out : ℕ → ℕ) (s : ResponseSequencer) : Type 0 where
  pub balance :
      (k : ℕ)
      → out k + one_if_some (find k s.pending) + one_if (ltb k s.next_expected)
        ≡ one_if (ltb k s.next_request_sequence)
  pub sized : s.next_request_sequence < word

module _ (out : ℕ → ℕ) (s : ResponseSequencer) (a : Accounts out s) where
  pub next_expected-le : s.next_expected ≤ s.next_request_sequence
  next_expected-le = let b = a.balance s.next_request_sequence in ground arith

  pub in_flight_count_lem : in_flight_count s ≡ s.next_request_sequence - s.next_expected
  unfolding in_flight_count
  in_flight_count_lem = omega (arith, next_expected-le, a.sized)

  -- A request takes a number that nothing held.
  pub Accounts-take_request_sequence :
      s.next_request_sequence + 1 < word
      → Accounts (λ k. one_if (s.next_request_sequence == k) + out k) (take_request_sequence s).1
  unfolding take_request_sequence
  Accounts-take_request_sequence room = record {
    balance = λ k. let b = a.balance k in ground arith;
    sized = omega arith;
  }

  next_handed_out :
      (r : Bytes)
      → find s.next_expected s.pending ≡ some r
      → s.next_expected < s.next_request_sequence
  next_handed_out r h = let b = a.balance s.next_expected in ground arith

  Accounts-advance :
      (r : Bytes) → find s.next_expected s.pending ≡ some r → Accounts out (advance s)
  unfolding advance
  Accounts-advance r h = record {
    balance = λ k.
        let b = a.balance k in
        let less = next_handed_out r h in
        let size = a.sized in grind (arith, find-erase s.next_expected k s.pending);
    sized = a.sized;
  }

none_pending : (k : ℕ) (pending : Assoc ℕ Bytes) → length pending ≤ 0 → find k pending ≡ none
unfolding find
none_pending k [] h = refl
none_pending k (p ∷ pending) h = absurd (omega arith)

-- The loop of `record` leaves the next expected response not pending.
release-none :
    (fuel : ℕ) (s : ResponseSequencer)
    → length s.pending ≤ fuel
    → find (release fuel s).1.next_expected (release fuel s).1.pending ≡ none
unfolding release find advance
release-none zero s few = none_pending s.next_expected s.pending (omega arith)
release-none (suc fuel) s few = elim (Option-cases (find s.next_expected s.pending)) [
  | inl e ↦ rw (e, release) e
  | inr (r, e) ↦
      let less = length-erase-lt s.next_expected s.pending r e in
      rw (e, release) (release-none fuel (advance s) (omega arith))
]

pub record_response-none :
    (q : ℕ) (r : Bytes) (s : ResponseSequencer)
    → find (record_response q r s).1.next_expected (record_response q r s).1.pending ≡ none
unfolding record_response
record_response-none q r s = release-none _ _ (omega arith)

-- What the loop and `record` leave as it was, and what only grows.
pub record Onward (s to : ResponseSequencer) : Type 0 where
  pub requests : to.next_request_sequence ≡ s.next_request_sequence
  pub further : s.next_expected ≤ to.next_expected

Onward-advance :
    (s to : ResponseSequencer) → s.next_expected + 1 < word → Onward (advance s) to → Onward s to
unfolding advance
Onward-advance s to size o = record {
  requests = o.requests;
  further = let f = o.further in omega arith;
}

module _ (out : ℕ → ℕ) where
  release-Accounts :
      (fuel : ℕ) (s : ResponseSequencer)
      → Accounts out s
      → Accounts out (release fuel s).1 × Onward s (release fuel s).1
  unfolding release
  release-Accounts zero s a = (a, record { requests = refl; further = omega arith })
  release-Accounts (suc fuel) s a = elim (Option-cases (find s.next_expected s.pending)) [
    | inl e ↦ rw (e, release) (a, record { requests = refl; further = omega arith })
    | inr (r, e) ↦
        let rest = release-Accounts fuel (advance s) (Accounts-advance out s a r e) in
        let less = next_handed_out out s a r e in
        let size = a.sized in rw (e, release) (rest.0, Onward-advance s _ (omega arith) rest.1)
  ]

  Accounts-emplace :
      (q : ℕ) (r : Bytes) (s : ResponseSequencer)
      → Accounts (λ k. one_if (q == k) + out k) s
      → Accounts out (record s { pending = emplace q r s.pending })
  unfolding emplace
  Accounts-emplace q r s a = record {
    balance = λ k.
        let b = a.balance k in let free = a.balance q in grind (arith, find-insert q k r s.pending);
    sized = a.sized;
  }

  -- A response that is still to come can be recorded, once.
  pub Accounts-record_response :
      (q : ℕ) (r : Bytes) (s : ResponseSequencer)
      → Accounts (λ k. one_if (q == k) + out k) s
      → Accounts out (record_response q r s).1 × Onward s (record_response q r s).1
  unfolding record_response
  Accounts-record_response q r s a =
      let pending = emplace q r s.pending in
      let rest =
        release-Accounts (length pending) (record s { pending = pending })
          (Accounts-emplace q r s a) in
      (rest.0, record { requests = rest.1.requests; further = rest.1.further })

pub new-Accounts : Accounts (λ k. 0) new_sequencer
unfolding find
new-Accounts = record { balance = λ k. ground arith; sized = omega arith }

pub Accounts-ext :
    (out out' : ℕ → ℕ) (s : ResponseSequencer)
    → ((k : ℕ) → out k ≡ out' k)
    → Accounts out s
    → Accounts out' s
Accounts-ext out out' s same a = record {
  balance = λ k. let b = a.balance k in let e = same k in omega arith;
  sized = a.sized;
}
