-- ===== src/Context.antt =====
-- src/ctx.rs: what the servers that are started have in common. The client of `reqwest` and the URL are
-- of types of those crates.
use pocket_relay_client_shar.Prelude.{ℕ, Option, List}

pub record ClientContext (Client Url : Type 0) : Type 0 where
  pub http_client : Client
  pub base_url : Url
  pub association : Option (List ℕ)
  pub tunnel_port : Option ℕ
