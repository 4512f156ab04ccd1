-- ===== src/Net/Wakeup.antt =====
-- The eventfd of src/net/event_loop.cpp. Its counter is the operating system's: a write adds to it and
-- fails where it would pass 2 ^ 64 - 2, and a read returns and resets it.
use cpp_kv_store.Base.{ℕ, ◌+◌, ◌-◌, ltb, if◌then◌else◌}
use cpp_kv_store.Storage.Time.{word}

-- `wake`, which ignores a failure of the write.
unfoldable pub wake : ℕ → ℕ
wake counter = if ltb (counter + 1) (word - 1) then counter + 1 else counter

-- The reads of `drain_wakeup`, until one fails.
abbrev pub drained : ℕ
drained = 0
