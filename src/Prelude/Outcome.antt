-- ===== src/Prelude/Outcome.antt =====
-- How a piece of the program ends: the monad of stateful code that may throw, wait for ever or
-- leave the defined part of C++.

pub mod Laws
use mathlib.Core.Option.{Option, none, some}

-- `commons/errors/errors.hpp`, the values that the sockets throw.
pub data SocketError : Type 0 where
  read_header_error read_payload_error write_error connect_error bind_error : SocketError

-- A result with the state after it; an exception with the state in which it was thrown; a wait that
-- nothing ends; the end of the process by `exit`; undefined behaviour; the fuel of a loop used up.
pub data Outcome (S A : Type 0) : Type 0 where
  done : A → S → Outcome S A
  raised : SocketError → S → Outcome S A
  blocked : S → Outcome S A
  exited : S → Outcome S A
  fault : Outcome S A
  no_fuel : Outcome S A

abbrev pub M : Type 0 → Type 0 → Type 0
M S A = S → Outcome S A

abbrev pub bind : {S A B : Type 0} → Outcome S A → (A → M S B) → Outcome S B
bind (done a s) f = f a s
bind (raised e s) f = raised e s
bind (blocked s) f = blocked s
bind (exited s) f = exited s
bind fault f = fault
bind no_fuel f = no_fuel

infixl 5 ◌>>=◌ ◌>>◌
abbrev pub ◌>>=◌ : {S A B : Type 0} → M S A → (A → M S B) → M S B
◌>>=◌ m f s = bind (m s) f

abbrev pub ◌>>◌ : {S B : Type 0} → M S (Unit {0}) → M S B → M S B
◌>>◌ m k s = bind (m s) (λ _. k)

abbrev pub return : {S A : Type 0} → A → M S A
return a s = done a s

-- `try { m } catch (SocketError e) { h e }`
abbrev pub catch : {S A : Type 0} → M S A → (SocketError → M S A) → M S A
catch m h s = elim (m s) [
  | done a t ↦ done a t
  | raised e t ↦ h e t
  | blocked t ↦ blocked t
  | exited t ↦ exited t
  | fault ↦ fault
  | no_fuel ↦ no_fuel
]

-- A computation on a part of a state: its state is read by `get` and written by `put`.
abbrev pub within : {S T A : Type 0} → (T → S) → (S → T → T) → M S A → M T A
within get put m w = elim (m (get w)) [
  | done a t ↦ done a (put t w)
  | raised e t ↦ raised e (put t w)
  | blocked t ↦ blocked (put t w)
  | exited t ↦ exited (put t w)
  | fault ↦ fault
  | no_fuel ↦ no_fuel
]

-- What undefined behaviour leaves out.
abbrev pub or_fault : {S A : Type 0} → Option A → M S A
or_fault o s = elim o [ none ↦ fault | some a ↦ done a s ]
