-- ===== src/Protocol/Command.antt =====
-- include/kvstore/protocol/command.hpp and the types of include/kvstore/protocol/parser.hpp.
use cpp_kv_store.Base.{ℕ, Bytes, ◌≡◌, refl, Bool, ◌⊎◌, inl, inr}
use cpp_kv_store.Base.Int.{ℤ}

pub data CommandType : Type 0 where
  ping set get del exists expire ttl : CommandType

-- `seconds` is a std::chrono::seconds, a signed count.
pub record Command : Type 0 where
  pub type : CommandType
  pub key : Bytes
  pub value : Bytes
  pub seconds : ℤ

pub data ProtocolErrorCategory : Type 0 where
  malformed_frame field_too_large wrong_arity unknown_command invalid_integer :
      ProtocolErrorCategory

pub record ProtocolError : Type 0 where
  pub category : ProtocolErrorCategory
  pub message : Bytes
  pub recoverable : Bool
  pub consumed_bytes : ℕ

pub record ParsedCommand : Type 0 where
  pub command : Command
  pub consumed_bytes : ℕ

-- std::variant<A, NeedMoreData, ProtocolError>: what each phase of the parser returns.
pub data Parse (A : Type 0) : Type 0 where
  complete : A → Parse A
  need_more_data : Parse A
  protocol_error : ProtocolError → Parse A

abbrev pub ParseResult : Type 0
ParseResult = Parse ParsedCommand

-- The early returns of a phase.
infixl 5 ◌>>=◌
abbrev pub ◌>>=◌ : {A B : Type 0} → Parse A → (A → Parse B) → Parse B
complete a >>= f = f a
need_more_data >>= f = need_more_data
protocol_error e >>= f = protocol_error e

-- To split on what a phase returned.
pub Parse-cases :
    {A : Type 0} (m : Parse A)
    → ((a : A) × (m ≡ complete a))
      ⊎ ((m ≡ need_more_data) ⊎ ((e : ProtocolError) × (m ≡ protocol_error e)))
Parse-cases (complete a) = inl (a, refl)
Parse-cases need_more_data = inr (inl refl)
Parse-cases (protocol_error e) = inr (inr (e, refl))
