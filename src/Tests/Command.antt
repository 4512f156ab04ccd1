-- ===== src/Tests/Command.antt =====
-- The dispatcher and histories of the store.
use cpp_kv_store.Base.{ℕ, ◌^◌, Bytes, none, List, [], ◌∷◌, ◌≡◌, arith, length, codes}
use cpp_kv_store.Base.Assoc.{bytes_instance}
use cpp_kv_store.Base.Int.{pos}
use cpp_kv_store.Protocol.Command.{Command, CommandType}
use cpp_kv_store.Storage.Store.{store_of}
use cpp_kv_store.Command.{dispatch}
use cpp_kv_store.Command.Abstract.{abstract_dispatch}
use cpp_kv_store.Command.Refinement.{Refines, dispatch-Refines}
use cpp_kv_store.Command.History.{
  Event, execute, look, clean, sweep, replies, promised, new-Shows, history-promised,
}

abbrev command_of : CommandType → Bytes → Bytes → ℕ → Command
command_of type key value seconds = record {
  type = type;
  key = key;
  value = value;
  seconds = pos seconds;
}

abbrev set_k : Command
set_k = command_of CommandType.set (codes "k") (codes "v") 0

abbrev get_k : Command
get_k = command_of CommandType.get (codes "k") [] 0

abbrev expire_k : Command
expire_k = command_of CommandType.expire (codes "k") [] 5

dispatch-Refines_example :
    Refines length 10
      (dispatch length 10 (store_of (2 ^ 1)) set_k)
      (abstract_dispatch 10 set_k (λ _. none))
dispatch-Refines_example =
    dispatch-Refines length 10 (store_of (2 ^ 1)) (λ _. none) (new-Shows length 1 10) set_k

-- A read looks at a key that has expired, the key is set again, and only then the read cleans up.
abbrev race : List Event
race =
    execute 10 set_k
    ∷ execute 20 expire_k
    ∷ look 5000000020 get_k
    ∷ execute 5000000021 set_k
    ∷ clean 5000000020 (codes "k")
    ∷ sweep 5000000021 20 1
    ∷ execute 5000000022 get_k
    ∷ []

history-promised_example : replies length race (store_of (2 ^ 1)) ≡ promised race (λ _. none)
history-promised_example = history-promised length 1 0 race (omega arith)
