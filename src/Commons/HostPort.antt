-- ===== src/Commons/HostPort.antt =====
-- commons/HostPort.hpp. Texts are lists of bytes; `lexical_cast<string>` of a string is that string.
pub mod Laws
use kiteq_client_cpp.Base.{
  ℕ, zero, suc, ◌+◌, ◌≤◌, ◌≡◌, ◌≢◌, refl, sym, ap, ◌∙◌, ◌⊎◌, inl, inr, Bool, true, false, ◌||◌,
  List, [], ◌∷◌, ◌++◌, Option, none, some, length, ◌==◌, arith, if◌then◌else◌, All, Bool-cases,
  append_assoc,
}

-- `boost::algorithm::split` with a predicate on characters: a text without a separator is one token,
-- and the first separator ends the first token.
pub record Splitter : Type 0 where
  pub split : (ℕ → Bool) → List ℕ → List (List ℕ)
  pub split_one : (sep : ℕ → Bool) (a : List ℕ) → All (λ c. sep c ≡ false) a → split sep a ≡ a ∷ []
  pub split_more :
      (sep : ℕ → Bool) (a : List ℕ) (c : ℕ) (rest : List ℕ)
      → All (λ b. sep b ≡ false) a
      → sep c ≡ true
      → split sep (a ++ c ∷ rest) ≡ a ∷ split sep rest

pub record HostPort : Type 0 where
  pub host : List ℕ
  pub port : List ℕ

unfoldable pub new_host_port : List ℕ → List ℕ → HostPort
new_host_port h p = record { host = h; port = p }

unfoldable pub get_host : HostPort → List ℕ
get_host hp = hp.host

unfoldable pub get_port : HostPort → List ℕ
get_port hp = hp.port

-- `true`: it returns. It does not look at the peer.
unfoldable pub ping : HostPort → Bool
ping hp = true

-- False if `ping` throws.
unfoldable pub is_available : HostPort → Bool
unfolding ping
is_available hp = if ping hp then true else false

unfoldable pub set_host : List ℕ → HostPort → HostPort
set_host h hp = record hp { host = h }

unfoldable pub set_port : List ℕ → HostPort → HostPort
set_port p hp = record hp { port = p }

-- "127.0.0.1" and "13800".
abbrev pub default_host : List ℕ
default_host = b'1' ∷ b'2' ∷ b'7' ∷ b'.' ∷ b'0' ∷ b'.' ∷ b'0' ∷ b'.' ∷ b'1' ∷ []

abbrev pub default_port : List ℕ
default_port = b'1' ∷ b'3' ∷ b'8' ∷ b'0' ∷ b'0' ∷ []

abbrev pub or_default : List ℕ → List ℕ → List ℕ
or_default [] d = d
or_default (c ∷ cs) d = c ∷ cs

abbrev pub is_colon : ℕ → Bool
is_colon c = c == b':'

-- `parse` from the split on; `none` is the null pointer.
unfoldable pub of_parts : List (List ℕ) → Option HostPort
unfolding new_host_port
of_parts (h ∷ p ∷ []) = some (new_host_port (or_default h default_host) (or_default p default_port))
of_parts _ = none

unfoldable pub parse : Splitter → List ℕ → Option HostPort
unfolding of_parts
parse sp hostport = of_parts (sp.split is_colon hostport)

unfoldable pub to_string : HostPort → List ℕ
to_string hp = hp.host ++ b':' ∷ hp.port

-- `asioKiteIOClient`'s constructor: the server's address is the URL up to the first `\` or `?`.
abbrev pub is_query : ℕ → Bool
is_query c = c == b'\\' || c == b'?'

unfoldable pub front : List (List ℕ) → List ℕ
front [] = []
front (a ∷ as') = a

unfoldable pub server_address : Splitter → List ℕ → Option HostPort
unfolding front
server_address sp url = parse sp (front (sp.split is_query url))
