-- ===== src/Server/Sound/Transfers.antt =====
-- The reads and writes of src/net/event_loop.cpp leave every request at one place.
use cpp_kv_store.Base.{ℕ, Bytes, ◌+◌, ◌==◌, List, length, refl, inl, inr, Bool-cases, Option-cases}
use cpp_kv_store.Base.Assoc.{nat_eq}
use cpp_kv_store.Net.ConnectionRegistry.{Connection, find_current}
use cpp_kv_store.Net.EventLoop.Steps.{
  EventLoop, Caller, update_epoll_interest, after_read, read_step, Os, after_write, write_step,
}
use cpp_kv_store.Net.Io.{Sent, ReadStatus, WriteStatus}
use cpp_kv_store.Worker.Pool.{Worker}
use cpp_kv_store.Server.Sound.{IsSound, IsSound-later, close_connection-IsSound}
use cpp_kv_store.Server.Sound.Puts.{buffers-IsSound, calls-IsSound, begin_writable-IsSound, current}

module _ (max_in_flight : ℕ) (workers : List Worker) where
  after_read-IsSound :
      (n : ℕ) (status : ReadStatus) (send : Bytes → Sent) (c : Connection) (loop : EventLoop)
      → IsSound max_in_flight workers n loop
      → IsSound max_in_flight workers n (after_read status send c loop).1
  unfolding after_read
  after_read-IsSound n ReadStatus.read_some send c loop s = s
  after_read-IsSound n ReadStatus.would_block send c loop s =
      begin_writable-IsSound max_in_flight workers n _ c.id loop s
  after_read-IsSound n ReadStatus.closed send c loop s =
      close_connection-IsSound max_in_flight workers send n c.id c.generation loop s
  after_read-IsSound n ReadStatus.buffer_full send c loop s =
      close_connection-IsSound max_in_flight workers send n c.id c.generation loop s
  after_read-IsSound n ReadStatus.error send c loop s =
      close_connection-IsSound max_in_flight workers send n c.id c.generation loop s

  pub read_step-IsSound :
      (n : ℕ) (os : Os) (id : ℕ) (loop : EventLoop)
      → IsSound max_in_flight workers n loop
      → IsSound max_in_flight workers (n + 1) (read_step os id loop).1
  unfolding read_step
  read_step-IsSound n os id loop s = elim (Option-cases (find_current id loop.connections)) [
    | inl e ↦ rw (e, read_step) (IsSound-later max_in_flight workers n loop s)
    | inr (c, e) ↦
        rw (e, read_step)
          (after_read-IsSound (n + 1) _ os.send _ _ (
            buffers-IsSound max_in_flight workers n c _ loop s
              (current max_in_flight workers n id c loop s e) refl refl refl))
  ]

  after_write-IsSound :
      (n : ℕ) (status : WriteStatus) (send : Bytes → Sent) (caller : Caller) (c : Connection)
      (loop : EventLoop)
      → IsSound max_in_flight workers n loop
      → IsSound max_in_flight workers n (after_write status send caller c loop).1
  unfolding after_write update_epoll_interest
  after_write-IsSound n WriteStatus.wrote_some send caller c loop s = s
  after_write-IsSound n WriteStatus.would_block send caller c loop s =
      calls-IsSound max_in_flight workers n _ _ loop s
  after_write-IsSound n WriteStatus.closed send caller c loop s =
      close_connection-IsSound max_in_flight workers send n c.id c.generation loop s
  after_write-IsSound n WriteStatus.error send caller c loop s =
      close_connection-IsSound max_in_flight workers send n c.id c.generation loop s

  pub write_step-IsSound :
      (n : ℕ) (os : Os) (caller : Caller) (id : ℕ) (loop : EventLoop)
      → IsSound max_in_flight workers n loop
      → IsSound max_in_flight workers (n + 1) (write_step os caller id loop).1
  unfolding write_step update_epoll_interest
  write_step-IsSound n os caller id loop s =
      elim (Option-cases (find_current id loop.connections)) [
        | inl e ↦ rw (e, write_step) (IsSound-later max_in_flight workers n loop s)
        | inr (c, e) ↦ elim (Bool-cases (length c.output.bytes == 0)) [
          | inl f ↦
              rw (e, write_step, f)
                (calls-IsSound max_in_flight workers (n + 1) _ _ loop
                  (IsSound-later max_in_flight workers n loop s))
          | inr f ↦
              rw (e, write_step, f)
                (after_write-IsSound (n + 1) _ os.send caller _ _ (
                  buffers-IsSound max_in_flight workers n c _ loop s
                    (current max_in_flight workers n id c loop s e) refl refl refl))
        ]
      ]
