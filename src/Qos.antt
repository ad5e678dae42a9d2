-- ===== src/Qos.antt =====
-- src/servers/qos.rs: the answers of the quality of service server, and the cached public address.
-- Times are seconds. What the network and the clock do is an argument.
pub mod Answers
pub mod Cache
pub mod Calls
use pocket_relay_client_shar.Prelude.{
  ℕ, ◌+◌, ◌*◌, ◌/◌, ◌%◌, Option, none, some, List, [], ◌∷◌, ◌++◌, ltb, if◌then◌else◌,
}

pub record Ipv4 : Type 0 where
  pub a : ℕ
  pub b : ℕ
  pub c : ℕ
  pub d : ℕ

abbrev pub octets : Ipv4 → List ℕ
octets ip = ip.a ∷ ip.b ∷ ip.c ∷ ip.d ∷ []

abbrev pub unspecified : Ipv4
unspecified = record { a = 0; b = 0; c = 0; d = 0 }

-- An IPv6 address is a list of bytes.
pub data SocketAddr : Type 0 where
  v4 : Ipv4 → ℕ → SocketAddr
  v6 : List ℕ → ℕ → SocketAddr

abbrev pub port : SocketAddr → ℕ
port (v4 ip p) = p
port (v6 ip p) = p

unfoldable pub socket_ip : SocketAddr → Ipv4
socket_ip (v4 ip p) = ip
socket_ip (v6 ip p) = unspecified

abbrev pub or_else : Option Ipv4 → Ipv4 → Ipv4
or_else none ip = ip
or_else (some address) ip = address

abbrev pub be_bytes : ℕ → List ℕ
be_bytes n = n / 256 % 256 ∷ n % 256 ∷ []

-- The datagram that `handle` sends to `socket_addr`, given the result of `public_address`.
unfoldable pub handle : Option Ipv4 → SocketAddr → List ℕ → List ℕ
unfolding socket_ip
handle public socket_addr buffer =
    let address = or_else public (socket_ip socket_addr) in
    let output = [] ++ buffer in
    let output = output ++ octets address in
    let output = output ++ be_bytes (port socket_addr) in output ++ (0 ∷ 0 ∷ 0 ∷ 0 ∷ [])

pub data PublicAddrCache : Type 0 where
  unset : PublicAddrCache
  set : Ipv4 → ℕ → PublicAddrCache

abbrev pub addr_cache_time : ℕ
addr_cache_time = 60 * 30

-- What a service for the address answers: the request or the reading of the text fails, or a text.
pub data Reply : Type 0 where
  request_failed text_failed : Reply
  text : List ℕ → Reply

-- What a call of `public_address` meets: the time of its first look at the clock, the replies of the
-- services in their order, the local address if there is an IPv4 one, and the time when the cache is
-- written.
pub record Network : Type 0 where
  pub now : ℕ
  pub replies : List Reply
  pub local_ip : Option Ipv4
  pub then_ : ℕ

-- `trim`, `replace` and `parse::<Ipv4Addr>` of the standard library are the parameter `parse`.
module _ (parse : List ℕ → Option Ipv4) where
  -- The loop over the services: the first reply that parses.
  unfoldable pub first_valid : List Reply → Option Ipv4
  first_valid [] = none
  first_valid (reply ∷ replies) =
      let rest = first_valid replies in
      elim reply [
        | request_failed ↦ rest
        | text_failed ↦ rest
        | text t ↦ elim (parse t) [ none ↦ rest | some parsed ↦ some parsed ]
      ]

  abbrev pub or_local : Option Ipv4 → Option Ipv4 → Option Ipv4
  or_local none local = local
  or_local (some value) local = some value

  -- The part under the write lock.
  unfoldable pub fetch_address : PublicAddrCache → Network → Option Ipv4 × PublicAddrCache
  unfolding first_valid
  fetch_address cached network = elim (or_local (first_valid network.replies) network.local_ip) [
    | none ↦ (none, cached)
    | some value ↦ (some value, set value (network.then_ + addr_cache_time))
  ]

  -- The address, and the cache as the call leaves it.
  unfoldable pub public_address : PublicAddrCache → Network → Option Ipv4 × PublicAddrCache
  unfolding fetch_address
  public_address unset network = fetch_address unset network
  public_address (set value expires) network =
      if ltb network.now expires
      then (some value, set value expires)
      else fetch_address (set value expires) network
