-- ===== src/Worker/BoundedQueue/History.antt =====
-- `BoundedQueue<T>` of include/kvstore/worker/bounded_queue.hpp over any interleaving of its critical
-- sections.
use cpp_kv_store.Base.{
  ◌≤◌, Bool, true, Option, none, some, List, [], ◌∷◌, ◌++◌, length, leb, ◌≡◌, refl, sym, ap, ◌∙◌,
  arith, append-nil, append_assoc, length-append, Bool-cases, inl, inr,
}
use cpp_kv_store.Worker.BoundedQueue.{
  BoundedQueue, PushStatus, PopStatus, try_push, push, pop, pop_items, try_pop, try_pop_items,
  close,
}

pub data Call (T : Type 0) : Type 0 where
  try_push_call : T → Call T
  push_call : T → Call T
  try_pop_call : Call T
  pop_call : Bool → Call T
  close_call : Call T

-- The items that a call put in, those that it took out, and the queue after it.
pub record Effect (T : Type 0) : Type 0 where
  pub accepted : List T
  pub taken : List T
  pub queue : BoundedQueue T

module _ {T : Type 0} where
  abbrev pub pushed_by : T → PushStatus × BoundedQueue T → Effect T
  pushed_by item (PushStatus.ok, q) = record { accepted = item ∷ []; taken = []; queue = q }
  pushed_by item (PushStatus.full, q) = record { accepted = []; taken = []; queue = q }
  pushed_by item (PushStatus.closed, q) = record { accepted = []; taken = []; queue = q }

  abbrev pub taken_by : PopStatus T × BoundedQueue T → Effect T
  taken_by (PopStatus.ok item, q) = record { accepted = []; taken = item ∷ []; queue = q }
  taken_by (PopStatus.closed, q) = record { accepted = []; taken = []; queue = q }
  taken_by (PopStatus.stopped, q) = record { accepted = []; taken = []; queue = q }

  abbrev pub took : Option T × BoundedQueue T → Effect T
  took (none, q) = record { accepted = []; taken = []; queue = q }
  took (some item, q) = record { accepted = []; taken = item ∷ []; queue = q }

  -- A call that waits has no effect yet.
  abbrev pub if_woken : {A : Type 0} → (A → Effect T) → BoundedQueue T → Option A → Effect T
  if_woken effect q none = record { accepted = []; taken = []; queue = q }
  if_woken effect q (some result) = effect result

  unfoldable pub effect_of : Call T → BoundedQueue T → Effect T
  effect_of (try_push_call item) q = pushed_by item (try_push item q)
  effect_of (push_call item) q = if_woken (pushed_by item) q (push item q)
  effect_of try_pop_call q = took (try_pop q)
  effect_of (pop_call stop) q = if_woken taken_by q (pop stop q)
  effect_of close_call q = record { accepted = []; taken = []; queue = close q }

  unfoldable pub run : List (Call T) → BoundedQueue T → Effect T
  run [] q = record { accepted = []; taken = []; queue = q }
  run (call ∷ calls) q =
      let here = effect_of call q in
      let rest = run calls here.queue in
      record {
        accepted = here.accepted ++ rest.accepted;
        taken = here.taken ++ rest.taken;
        queue = rest.queue;
      }

  -- What each effect on a queue keeps.
  pub record IsFifo (q : BoundedQueue T) (e : Effect T) : Type 0 where
    pub in_order : e.taken ++ e.queue.items ≡ q.items ++ e.accepted
    pub bounded : length q.items ≤ q.capacity → length e.queue.items ≤ e.queue.capacity
    pub stays_closed : q.is_closed ≡ true → (e.queue.is_closed ≡ true) × (e.accepted ≡ [])

  idle-IsFifo : (q : BoundedQueue T) → IsFifo q (record { accepted = []; taken = []; queue = q })
  idle-IsFifo q = record {
    in_order = sym (append-nil q.items);
    bounded = λ h. h;
    stays_closed = λ h. (h, refl);
  }

  try_push-IsFifo : (item : T) (q : BoundedQueue T) → IsFifo q (pushed_by item (try_push item q))
  unfolding try_push
  try_push-IsFifo item q = elim (Bool-cases q.is_closed) [
    | inl e ↦ simp e (idle-IsFifo q)
    | inr e ↦ elim (Bool-cases (leb q.capacity (length q.items))) [
      | inl f ↦ simp (e, f) (idle-IsFifo q)
      | inr f ↦
          simp (e, f)
            (record {
              in_order = refl;
              bounded = λ h. let sum = length-append q.items (item ∷ []) in ground arith;
              stays_closed = λ h. cc;
            })
    ]
  ]

  -- What a push that tries came to, unless the queue was full.
  abbrev pub unless_full : PushStatus × BoundedQueue T → Option (PushStatus × BoundedQueue T)
  unless_full (PushStatus.full, q) = none
  unless_full (PushStatus.ok, q) = some (PushStatus.ok, q)
  unless_full (PushStatus.closed, q) = some (PushStatus.closed, q)

  -- The blocking push waits exactly where try_push finds the queue full, and does otherwise what
  -- try_push does.
  pub push-try_push : (item : T) (q : BoundedQueue T) → push item q ≡ unless_full (try_push item q)
  unfolding push try_push
  push-try_push item q = elim (Bool-cases q.is_closed) [
    | inl e ↦ ground arith
    | inr e ↦ elim (Bool-cases (leb q.capacity (length q.items))) [
      | inl f ↦ ground arith
      | inr f ↦ ground arith
    ]
  ]

  pushed-IsFifo :
      (item : T) (q : BoundedQueue T) → IsFifo q (if_woken (pushed_by item) q (push item q))
  pushed-IsFifo item q =
      rw (push-try_push item q) (woken (try_push item q) (try_push-IsFifo item q))
    where
      woken :
          (r : PushStatus × BoundedQueue T)
          → IsFifo q (pushed_by item r)
          → IsFifo q (if_woken (pushed_by item) q (unless_full r))
      woken (PushStatus.ok, q') h = h
      woken (PushStatus.full, q') h = idle-IsFifo q
      woken (PushStatus.closed, q') h = h

  pop-IsFifo : (stop : Bool) (q : BoundedQueue T) → IsFifo q (if_woken taken_by q (pop stop q))
  unfolding pop pop_items
  pop-IsFifo stop q = popped q.items refl
    where
      popped :
          (items : List T)
          → items ≡ q.items
          → IsFifo q (if_woken taken_by q (pop_items stop items q))
      popped (item ∷ items) e = record {
        in_order = e ∙ sym (append-nil q.items);
        bounded = λ h. let shorter = ap length e in omega arith;
        stays_closed = λ h. (h, refl);
      }
      popped [] e = elim (Bool-cases q.is_closed) [
        | inl f ↦ simp f (idle-IsFifo q)
        | inr f ↦ elim (Bool-cases stop) [
          | inl g ↦ simp (f, g) (idle-IsFifo q)
          | inr g ↦ simp (f, g) (idle-IsFifo q)
        ]
      ]

  try_pop-IsFifo : (q : BoundedQueue T) → IsFifo q (took (try_pop q))
  unfolding try_pop try_pop_items
  try_pop-IsFifo q = popped q.items refl
    where
      popped : (items : List T) → items ≡ q.items → IsFifo q (took (try_pop_items items q))
      popped (item ∷ items) e = record {
        in_order = e ∙ sym (append-nil q.items);
        bounded = λ h. let shorter = ap length e in omega arith;
        stays_closed = λ h. (h, refl);
      }
      popped [] e = idle-IsFifo q

  effect_of-IsFifo : (call : Call T) (q : BoundedQueue T) → IsFifo q (effect_of call q)
  unfolding effect_of close
  effect_of-IsFifo (try_push_call item) q = try_push-IsFifo item q
  effect_of-IsFifo (push_call item) q = pushed-IsFifo item q
  effect_of-IsFifo try_pop_call q = try_pop-IsFifo q
  effect_of-IsFifo (pop_call stop) q = pop-IsFifo stop q
  effect_of-IsFifo close_call q = record {
    in_order = sym (append-nil q.items);
    bounded = λ h. h;
    stays_closed = λ h. (refl, refl);
  }

  -- Over any interleaving of calls on a queue, the items taken out and then those left are the items
  -- that were there and then those accepted; a queue within its capacity stays within it; and a
  -- closed queue stays closed and accepts nothing.
  pub run-IsFifo : (calls : List (Call T)) (q : BoundedQueue T) → IsFifo q (run calls q)
  unfolding run
  run-IsFifo [] q = idle-IsFifo q
  run-IsFifo (call ∷ calls) q =
      let here = effect_of call q in
      let h = effect_of-IsFifo call q in
      let rest = run-IsFifo calls here.queue in
      record {
        in_order =
            append_assoc here.taken _ _
            ∙ ap (λ l. here.taken ++ l) rest.in_order
            ∙ sym (append_assoc here.taken _ _)
            ∙ ap (λ l. l ++ (run calls here.queue).accepted) h.in_order
            ∙ append_assoc q.items _ _;
        bounded = λ b. rest.bounded (h.bounded b);
        stays_closed = λ c.
            let first = h.stays_closed c in
            let later = rest.stays_closed first.0 in
            (later.0, ap (λ l. l ++ (run calls here.queue).accepted) first.1 ∙ later.1);
      }
