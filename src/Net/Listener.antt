-- ===== src/Net/Listener.antt =====
-- src/net/listener.cpp and include/kvstore/net/listener.hpp. What the system calls answer is an
-- argument; which error an exception is for is told apart by its message alone.
use cpp_kv_store.Base.{
  ℕ, zero, suc, Bytes, Bool, true, false, not, Option, none, some, List, [], ◌∷◌, ◌++◌, codes,
  if◌then◌else◌,
}
use cpp_kv_store.Base.Int.{ℤ, pos, negsuc}
use cpp_kv_store.Protocol.Integer.{to_string}
use cpp_kv_store.Net.FileDescriptor.{FileDescriptor, empty_descriptor, release, reset, destroy}

pub record ListenerConfig : Type 0 where
  pub bind_address : Bytes
  pub port : ℕ
  pub backlog : ℤ

abbrev pub default_backlog : ℤ
default_backlog = pos 128

pub data Exception : Type 0 where
  system_error invalid_argument : Bytes → Exception

-- A constructor's object, or its exception; with the descriptors that the operating system has
-- opened for it, the last first, and those passed to ::close, the first first.
pub data Result (T : Type 0) : Type 0 where
  built : T → Result T
  thrown : Exception → Result T

pub record Constructed (T : Type 0) : Type 0 where
  pub result : Result T
  pub opened : List ℕ
  pub closed : List ℕ

-- ::socket returns a descriptor or -1; the others succeed or fail.
pub record ListenerCalls : Type 0 where
  pub socket : Option ℕ
  pub setsockopt : Bool
  pub inet_pton : Bytes → Bool
  pub bind : Bytes → ℕ → Bool
  pub listen : ℤ → Bool
  -- The port that ::getsockname stores.
  pub getsockname : Option ℕ

abbrev is_positive : ℤ → Bool
is_positive (pos zero) = false
is_positive (pos (suc n)) = true
is_positive (negsuc n) = false

abbrev failed_to : Bytes → Exception
failed_to call = system_error (codes "Listener: " ++ (call ++ codes " failed"))

-- What is thrown once `sock` is valid.
unfoldable pub check : ListenerCalls → ListenerConfig → Option Exception
check calls config =
    if not calls.setsockopt
    then some (failed_to (codes "setsockopt(SO_REUSEADDR)"))
    else if not (calls.inet_pton config.bind_address)
    then (some (
        invalid_argument
          (codes "Listener: invalid IPv4 bind address '" ++ (config.bind_address ++ codes "'"))))
    else if not (calls.bind config.bind_address config.port)
    then some (failed_to (codes "bind()"))
    else if not (is_positive config.backlog)
    then some (invalid_argument (codes "Listener: backlog must be positive"))
    else if not (calls.listen config.backlog)
    then some (failed_to (codes "listen()"))
    else none

-- `sock` is moved to the member, or destroyed by the exception.
unfoldable pub after_check : ℕ → FileDescriptor → Option Exception → Constructed FileDescriptor
unfolding release reset destroy
after_check fd sock (some e) = record {
  result = thrown e;
  opened = fd ∷ [];
  closed = (destroy sock).1;
}
after_check fd sock none =
    let (moved, left) = release sock in
    let (member, closes) = reset moved empty_descriptor in
    record { result = built member; opened = fd ∷ []; closed = closes ++ (destroy left).1 }

unfoldable pub after_socket : ListenerCalls → ListenerConfig → Option ℕ → Constructed FileDescriptor
unfolding after_check check
after_socket calls config none = record {
  result = thrown (failed_to (codes "socket()"));
  opened = [];
  closed = [];
}
after_socket calls config (some fd) = after_check fd (record { fd = some fd }) (check calls config)

unfoldable pub new_listener : ListenerCalls → ListenerConfig → Constructed FileDescriptor
unfolding after_socket
new_listener calls config = after_socket calls config calls.socket

unfoldable pub port : ListenerCalls → Result ℕ
port calls = elim calls.getsockname [
  | none ↦ thrown (failed_to (codes "getsockname()"))
  | some number ↦ built number
]

-- errno of ::accept4; the numbers of the other errors are not told apart by the code.
pub data AcceptErrno : Type 0 where
  eagain eintr econnaborted : AcceptErrno
  other : ℕ → AcceptErrno

-- ::accept4: a descriptor, with the client's address as ::inet_ntop writes it and its port, or an
-- error.
pub data Accept : Type 0 where
  client : ℕ → Bytes → ℕ → Accept
  failed : AcceptErrno → Accept

-- A round of `accept_one`: what it returns, another round, or its exception.
pub data AcceptRound : Type 0 where
  accepted : ℕ → Bytes → AcceptRound
  none_pending retry failure : AcceptRound

unfoldable pub accept_round : Accept → AcceptRound
accept_round (client fd address port) = accepted fd (address ++ (codes ":" ++ to_string port))
accept_round (failed eagain) = none_pending
accept_round (failed eintr) = retry
accept_round (failed econnaborted) = retry
accept_round (failed (other n)) = failure
