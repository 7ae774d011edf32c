-- ===== src/Proxy/Dest/Picked.antt =====
-- The address that a connection goes to is one that the resolver named and this client may reach.
use stremio_libtorrent_serve.Prelude.{
  ◌≡◌, Bool, true, false, Option, none, some, List, [], ◌∷◌, arith, contains, All, Bool-cases,
  Option-cases, inl, inr,
}
use stremio_libtorrent_serve.Prelude.Text.{Text, Text_eq}
use stremio_libtorrent_serve.Proxy.Dest.{
  Address, Ip, metadata_networks, is_in_any, judged, may_reach, Choice, chosen_address, refused,
  unresolved, allowed, pick_first, pick,
}

-- An address of no link and no metadata service, and a global one for a client from outside.
pub record IsReachable (ip : Address) (home_client : Bool) : Type 0 where
  pub routed : ip.is_link_local ≡ false
  pub plain : All (λ net. ip.is_in net ≡ false) metadata_networks
  pub outside : home_client ≡ false → (ip.is_global ≡ true) × (ip.is_multicast ≡ false)

module _ (ip_address : Text → Option Ip) where
  -- What each outcome says of the resolver's answer.
  abbrev pub IsPicked : Option (List Text) → Bool → Choice → Type 0
  IsPicked (some addresses) home_client (chosen_address a) =
      (contains addresses a ≡ true)
      × ((ip : Ip) × (ip_address a ≡ some ip) × IsReachable (judged ip) home_client)
  IsPicked (some addresses) home_client refused =
      All (λ a. allowed ip_address a home_client ≡ false) addresses
  IsPicked (some addresses) home_client unresolved = ⊥
  IsPicked none home_client (chosen_address a) = ⊥
  IsPicked none home_client refused = ⊥
  IsPicked none home_client unresolved = Unit

  may_reach-IsReachable :
      (ip : Address) (home_client : Bool)
      → may_reach ip home_client ≡ true
      → IsReachable ip home_client
  unfolding may_reach is_in_any
  may_reach-IsReachable ip home_client h = record {
    routed = ground (arith, h);
    plain = (ground (arith, h), (ground (arith, h), tt));
    outside = λ away. (ground (arith, h, away), ground (arith, h, away));
  }

  allowed-IsReachable :
      (a : Text) (home_client : Bool)
      → allowed ip_address a home_client ≡ true
      → (ip : Ip) × (ip_address a ≡ some ip) × IsReachable (judged ip) home_client
  unfolding allowed
  allowed-IsReachable a home_client h = elim (Option-cases (ip_address a)) [
    | inl e ↦ absurd (let h' = rw (e, allowed) at h in cc h')
    | inr (ip, e) ↦ (ip, e, may_reach-IsReachable (judged ip) home_client (rw (e, allowed) at h))
  ]

  more-IsPicked :
      (address : Text) (addresses : List Text) (home_client : Bool) (c : Choice)
      → allowed ip_address address home_client ≡ false
      → IsPicked (some addresses) home_client c
      → IsPicked (some (address ∷ addresses)) home_client c
  unfolding contains
  more-IsPicked address addresses home_client (chosen_address a) barred p =
      (ground (arith, p.0), p.1)
  more-IsPicked address addresses home_client refused barred p = (barred, p)
  more-IsPicked address addresses home_client unresolved barred p = p

  pick_first-IsPicked :
      (addresses : List Text) (home_client : Bool)
      → IsPicked (some addresses) home_client (pick_first ip_address addresses home_client)
  unfolding pick_first contains
  pick_first-IsPicked [] home_client = tt
  pick_first-IsPicked (address ∷ addresses) home_client =
      elim (Bool-cases (allowed ip_address address home_client)) [
        | inl e ↦
            rw (e, pick_first)
              (
                ground (arith, Text_eq.decides address address),
                allowed-IsReachable address home_client e,
              )
        | inr e ↦
            rw (e, pick_first)
              (more-IsPicked address addresses home_client
                (pick_first ip_address addresses home_client) e
                (pick_first-IsPicked addresses home_client))
      ]

  -- Whatever a name resolves to: the address that a connection goes to is one of the resolver's answers,
  -- and it (or the IPv4 address that it stands for) is not link-local, not of a metadata service, and for a
  -- client from outside global and no multicast one; only where no answer is allowed the client is refused.
  pub pick-IsPicked :
      (answer : Option (List Text)) (home_client : Bool)
      → IsPicked answer home_client (pick ip_address answer home_client)
  unfolding pick
  pick-IsPicked none home_client = tt
  pick-IsPicked (some addresses) home_client = pick_first-IsPicked addresses home_client
