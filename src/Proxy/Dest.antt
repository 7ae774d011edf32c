-- ===== src/Proxy/Dest.antt =====
-- proxy/dest.py: where a client may connect through the server. What the address library says of a text
-- is an argument, none where it is no address; so is the resolver's answer.
pub mod Picked
use stremio_libtorrent_serve.Prelude.{
  ◌≡◌, Bool, true, false, not, ◌&&◌, ◌||◌, Option, none, some, List, [], ◌∷◌, if◌then◌else◌,
}
use stremio_libtorrent_serve.Prelude.Text.{Text, codes}

-- What the library says of one address.
pub record Address : Type 0 where
  pub is_link_local : Bool
  pub is_global : Bool
  pub is_multicast : Bool
  pub is_in : Text → Bool

-- An address with the IPv4 one that it stands for, where it is an IPv6 one that does.
pub record Ip : Type 0 where
  pub own : Address
  pub ipv4_mapped : Option Address

-- `METADATA`
abbrev pub metadata_networks : List Text
metadata_networks = codes "100.100.100.200/32" ∷ codes "fd00:ec2::254/128" ∷ []

unfoldable pub is_in_any : Address → List Text → Bool
is_in_any ip [] = false
is_in_any ip (net ∷ nets) = ip.is_in net || is_in_any ip nets

-- the address that is judged
abbrev pub judged : Ip → Address
judged ip = elim ip.ipv4_mapped [ none ↦ ip.own | some v4 ↦ v4 ]

unfoldable pub may_reach : Address → Bool → Bool
unfolding is_in_any
may_reach ip home_client =
    if ip.is_link_local || is_in_any ip metadata_networks
    then false
    else if home_client
    then true
    else ip.is_global && not ip.is_multicast

-- How a choice ends: `refused` is the exception of that name, `unresolved` the resolver's.
pub data Choice : Type 0 where
  chosen_address : Text → Choice
  refused : Choice
  unresolved : Choice

module _ (ip_address : Text → Option Ip) where
  unfoldable pub allowed : Text → Bool → Bool
  unfolding may_reach
  allowed address home_client = elim (ip_address address) [
    | none ↦ false
    | some ip ↦ may_reach (judged ip) home_client
  ]

  -- the loop of `pick`
  unfoldable pub pick_first : List Text → Bool → Choice
  unfolding allowed
  pick_first [] home_client = refused
  pick_first (address ∷ addresses) home_client =
      if allowed address home_client
      then chosen_address address
      else pick_first addresses home_client

  -- `pick`, with what `getaddrinfo` answers, none where it raises
  unfoldable pub pick : Option (List Text) → Bool → Choice
  unfolding pick_first
  pick none home_client = unresolved
  pick (some addresses) home_client = pick_first addresses home_client
