-- ===== src/Qos/Cache.antt =====
-- The cache of the public address.
use pocket_relay_client_shar.Prelude.{
  ℕ, ◌+◌, ◌≤◌, ◌<◌, ◌≡◌, Bool-cases, Option, Option-cases, none, some, List, [], ◌∷◌, ◌++◌, ltb,
  lt→ltb, le→ltb, inl, inr,
}
use pocket_relay_client_shar.Qos.{
  Ipv4, PublicAddrCache, unset, set, Reply, request_failed, text_failed, text, Network, first_valid,
  or_local, fetch_address, public_address,
}

module _ (parse : List ℕ → Option Ipv4) where
  -- The reply gives no address.
  abbrev pub IsUseless : Reply → Type 0
  IsUseless request_failed = Unit {0}
  IsUseless text_failed = Unit {0}
  IsUseless (text t) = parse t ≡ none

  abbrev pub AllUseless : List Reply → Type 0
  AllUseless [] = Unit {0}
  AllUseless (r ∷ rs) = IsUseless r × AllUseless rs

  -- The address comes from the first service whose reply parses, whatever the later ones would say.
  pub first_valid-append :
      (before : List Reply) (t : List ℕ) (ip : Ipv4) (later : List Reply)
      → AllUseless before
      → parse t ≡ some ip
      → first_valid parse (before ++ text t ∷ later) ≡ some ip
  unfolding first_valid
  first_valid-append [] t ip later u e = rw (first_valid, e)
  first_valid-append (request_failed ∷ before) t ip later u e =
      first_valid-append before t ip later u.1 e
  first_valid-append (text_failed ∷ before) t ip later u e =
      first_valid-append before t ip later u.1 e
  first_valid-append (text s ∷ before) t ip later u e =
      rw (first_valid, u.0) (first_valid-append before t ip later u.1 e)

  -- A cached address is given until it expires, and the cache stays; from then on, and without a
  -- cached address, the services are asked.
  pub public_address-cached :
      (value : Ipv4) (expires : ℕ) (network : Network)
      → (network.now < expires
          → public_address parse (set value expires) network ≡ (some value, set value expires))
        × (expires ≤ network.now
            → public_address parse (set value expires) network
              ≡ fetch_address parse (set value expires) network)
  unfolding public_address
  public_address-cached value expires network = (
    λ h. rw (public_address, lt→ltb network.now expires h),
    λ h. rw (public_address, le→ltb network.now expires h),
  )

  -- An address that was fetched is given to every later call within half an hour of the fetch, with
  -- no regard to the network.
  pub public_address-again :
      (cached : PublicAddrCache) (first second : Network) (ip : Ipv4)
      → (fetch_address parse cached first).0 ≡ some ip
      → second.now < first.then_ + 1800
      → public_address parse (fetch_address parse cached first).1 second
        ≡ (some ip, set ip (first.then_ + 1800))
  unfolding fetch_address
  public_address-again cached first second ip e h =
      elim (Option-cases (or_local parse (first_valid parse first.replies) first.local_ip)) [
        | inl missing ↦ cc (rw (fetch_address, missing) at e)
        | inr (found, got) ↦
            let same : found ≡ ip = cc (rw (fetch_address, got) at e) in
            rw (fetch_address, got, same)
              ((public_address-cached ip (first.then_ + 1800) second).0 h)
      ]

  fetch_address-none :
      (cached : PublicAddrCache) (network : Network)
      → (fetch_address parse cached network).0 ≡ none
      → (fetch_address parse cached network).1 ≡ cached
  unfolding fetch_address
  fetch_address-none cached network e =
      elim (Option-cases (or_local parse (first_valid parse network.replies) network.local_ip)) [
        | inl missing ↦ rw (fetch_address, missing)
        | inr (found, got) ↦ cc (rw (fetch_address, got) at e)
      ]

  -- A call that finds no address leaves the cache as it was.
  pub public_address-none :
      (cached : PublicAddrCache) (network : Network)
      → (public_address parse cached network).0 ≡ none
      → (public_address parse cached network).1 ≡ cached
  unfolding public_address
  public_address-none unset network e = fetch_address-none unset network e
  public_address-none (set value expires) network e = elim (Bool-cases (ltb network.now expires)) [
    | inl valid ↦ cc (rw (public_address, valid) at e)
    | inr over ↦
        rw (public_address, over)
          (fetch_address-none (set value expires) network (rw (public_address, over) at e))
  ]
