-- ===== src/Server/Auth.antt =====
-- cmd/mquery/mquery.go: `AuthRequired` and what it calls. The package `net` and SHA-256 are
-- parameters.
pub mod Access
use Prim.Native.Char.{code}
use Prim.Native.String.{String}
use mquery.Base.{
  Bool, true, false, not, ◌&&◌, List, [], ◌∷◌, Option, none, some, if◌then◌else◌, ◌==◌,
}
use mquery.Base.Text.{str_eq, contains}

-- The part of the configuration that is read.
pub record AuthConf : Type 0 where
  pub listen_address : String
  pub known_proxies : List String
  pub local_networks : List String
  pub tokens : List String

pub record NetPackage : Type 1 where
  pub Ip : Type 0
  pub Network : Type 0
  pub parse_ip : String → Option Ip
  pub parse_cidr : String → Option Network
  pub holds : Network → Ip → Bool
  -- The host of an address.
  pub split_host_port : String → Option String

-- strings.CutPrefix
unfoldable pub cut_prefix : String → String → Option String
cut_prefix s String.[] = some s
cut_prefix String.[] (String.◌∷◌ p ps) = none
cut_prefix (String.◌∷◌ c cs) (String.◌∷◌ p ps) =
    let rest = cut_prefix cs ps in if code c == code p then rest else none

-- `sha256_hex` is the sum as hexadecimal digits.
unfoldable pub auth_token_matches : (String → String) → String → String → Bool
unfolding cut_prefix
auth_token_matches sha256_hex stored provided = elim (cut_prefix stored "sha256:") [
  | some hashed ↦ str_eq (sha256_hex provided) hashed
  | none ↦ str_eq stored provided
]

unfoldable pub any_token_matches : (String → String) → List String → String → Bool
any_token_matches sha256_hex [] provided = false
any_token_matches sha256_hex (stored ∷ rest) provided =
    if auth_token_matches sha256_hex stored provided
    then true
    else any_token_matches sha256_hex rest provided

module _ (net : NetPackage) where
  -- The loop over the configured networks; one that does not parse is passed over.
  unfoldable pub in_networks : List String → net.Ip → Bool
  in_networks [] ip = false
  in_networks (cidr ∷ rest) ip =
      let later = in_networks rest ip in
      elim (net.parse_cidr cidr) [
        | none ↦ later
        | some network ↦ if net.holds network ip then true else later
      ]

  -- The address on which the server listens stands for a network if none is configured.
  unfoldable pub is_listed : List String → String → String → net.Ip → Bool
  unfolding in_networks
  is_listed [] listen_address ip parsed = str_eq ip listen_address
  is_listed (n ∷ ns) listen_address ip parsed = in_networks (n ∷ ns) parsed

  unfoldable pub is_local_network : AuthConf → String → Bool
  unfolding is_listed
  is_local_network conf ip = elim (net.parse_ip ip) [
    | none ↦ false
    | some parsed ↦ is_listed conf.local_networks conf.listen_address ip parsed
  ]

  -- isKnownProxy compares with each entry.
  abbrev pub is_known_proxy : AuthConf → String → Bool
  is_known_proxy conf ip = contains conf.known_proxies ip

  unfoldable pub is_local_direct : AuthConf → String → Bool
  unfolding is_local_network
  is_local_direct conf remote_addr = elim (net.split_host_port remote_addr) [
    | none ↦ false
    | some ip ↦ is_local_network conf ip && not (is_known_proxy conf ip)
  ]

  -- Whether the request goes on; otherwise it ends with status 401. `provided` is the header with
  -- the token, empty if it is missing.
  unfoldable pub auth_required : (String → String) → AuthConf → String → String → Bool
  unfolding is_local_direct any_token_matches
  auth_required sha256_hex conf remote_addr provided =
      if is_local_direct conf remote_addr
      then true
      else any_token_matches sha256_hex conf.tokens provided
