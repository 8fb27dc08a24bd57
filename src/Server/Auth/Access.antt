-- ===== src/Server/Auth/Access.antt =====
-- Who passes the authentication.
use Prim.Native.String.{String}
use mquery.Base.{
  ◌≡◌, ◌↔◌, ◌⊎◌, inl, inr, refl, subst, true, false, List, [], ◌∷◌, none, some, arith, Bool-cases,
  Option-cases,
}
use mquery.Base.Text.{str_eq_iff, contains}
use mquery.Server.Auth.{
  AuthConf, NetPackage, cut_prefix, auth_token_matches, any_token_matches, in_networks, is_listed,
  is_local_network, is_local_direct, auth_required,
}

-- The stored token is the provided one, or holds the SHA-256 sum of it after the prefix.
abbrev pub IsTokenFor : (String → String) → String → String → Type 0
IsTokenFor sha256_hex provided stored =
    (cut_prefix stored "sha256:" ≡ some (sha256_hex provided))
    ⊎ ((cut_prefix stored "sha256:" ≡ none) × (stored ≡ provided))

abbrev pub Some : (String → Type 0) → List String → Type 0
Some P [] = ⊥
Some P (x ∷ xs) = P x ⊎ Some P xs

auth_token_matches_iff :
    (sha256_hex : String → String) (stored provided : String)
    → (auth_token_matches sha256_hex stored provided ≡ true) ↔ IsTokenFor sha256_hex provided stored
unfolding auth_token_matches
auth_token_matches_iff sha256_hex stored provided =
    elim (Option-cases (cut_prefix stored "sha256:")) [
      | inl e ↦ ground (arith, e, str_eq_iff stored provided)
      | inr (h, e) ↦ ground (arith, e, str_eq_iff (sha256_hex provided) h)
    ]

any_token_matches_iff :
    (sha256_hex : String → String) (tokens : List String) (provided : String)
    → (any_token_matches sha256_hex tokens provided ≡ true)
      ↔ Some (IsTokenFor sha256_hex provided) tokens
unfolding any_token_matches
any_token_matches_iff sha256_hex [] provided = ground arith
any_token_matches_iff sha256_hex (t ∷ ts) provided =
    let one = auth_token_matches_iff sha256_hex t provided in
    let more = any_token_matches_iff sha256_hex ts provided in
    elim (Bool-cases (auth_token_matches sha256_hex t provided)) [
      | inl e ↦ rw (e, any_token_matches) (λ h. inl (one.0 e), λ h. refl)
      | inr e ↦
          rw (e, any_token_matches)
            (
              λ h. inr (more.0 h),
              λ h. elim h [ inl p ↦ absurd (cc (e, one.1 p)) | inr p ↦ more.1 p ],
            )
    ]

module _ (net : NetPackage) where
  -- Some configured network parses and holds the address.
  abbrev pub HoldsIp : net.Ip → String → Type 0
  HoldsIp ip cidr = (n : net.Network) × (net.parse_cidr cidr ≡ some n) × (net.holds n ip ≡ true)

  in_networks_iff :
      (cidrs : List String) (ip : net.Ip)
      → (in_networks net cidrs ip ≡ true) ↔ Some (HoldsIp ip) cidrs
  unfolding in_networks
  in_networks_iff [] ip = ground arith
  in_networks_iff (c ∷ cs) ip =
      let more = in_networks_iff cs ip in
      elim (Option-cases (net.parse_cidr c)) [
        | inl e ↦
            rw (e, in_networks)
              (λ h. inr (more.0 h), λ h. elim h [ inl p ↦ absurd (cc (e, p.1)) | inr p ↦ more.1 p ])
        | inr (n, e) ↦ elim (Bool-cases (net.holds n ip)) [
          | inl k ↦ rw (e, in_networks) (rw k (λ h. inl (n, refl, k), λ h. refl))
          | inr k ↦
              rw (e, in_networks)
                (rw k (
                  λ h. inr (more.0 h),
                  λ h. elim h [ inl (m, p, q) ↦ absurd (cc (p, q, k)) | inr p ↦ more.1 p ],
                ))
        ]
      ]

  -- The address parses, and lies in a configured network, or is the address on which the server
  -- listens if no network is configured.
  abbrev pub IsLocal : AuthConf → String → Type 0
  IsLocal conf ip =
      (p : net.Ip) × (net.parse_ip ip ≡ some p)
      × (((conf.local_networks ≡ []) × (ip ≡ conf.listen_address))
          ⊎ Some (HoldsIp p) conf.local_networks)

  -- The peer is local and no known proxy.
  abbrev pub IsLocalDirect : AuthConf → String → Type 0
  IsLocalDirect conf remote_addr =
      (ip : String) × (net.split_host_port remote_addr ≡ some ip)
      × IsLocal conf ip
      × (contains conf.known_proxies ip ≡ false)

  is_listed_iff :
      (networks : List String) (listen_address ip : String) (p : net.Ip)
      → (is_listed net networks listen_address ip p ≡ true)
        ↔ (((networks ≡ []) × (ip ≡ listen_address)) ⊎ Some (HoldsIp p) networks)
  unfolding is_listed
  is_listed_iff [] listen_address ip p =
      let same = str_eq_iff ip listen_address in
      (λ h. inl (refl, same.0 h), λ h. elim h [ inl k ↦ same.1 k.1 | inr k ↦ absurd k ])
  is_listed_iff (n ∷ ns) listen_address ip p =
      let held = in_networks_iff (n ∷ ns) p in
      (λ h. inr (held.0 h), λ h. elim h [ inl k ↦ absurd (cc (k.0)) | inr k ↦ held.1 k ])

  is_local_network_iff :
      (conf : AuthConf) (ip : String) → (is_local_network net conf ip ≡ true) ↔ IsLocal conf ip
  unfolding is_local_network
  is_local_network_iff conf ip = elim (Option-cases (net.parse_ip ip)) [
    | inl e ↦ (λ h. absurd (ground (arith, e)), λ h. absurd (cc (e, h.1)))
    | inr (p, e) ↦
        let listed = is_listed_iff conf.local_networks conf.listen_address ip p in
        (
          λ h. (p, e, listed.0 (rw (e, is_local_network) at h)),
          λ h.
              let same : h.0 ≡ p = cc (e, h.1) in
              rw (e, is_local_network)
                (listed.1 (
                  subst
                    (λ x.
                      ((conf.local_networks ≡ []) × (ip ≡ conf.listen_address))
                      ⊎ Some (HoldsIp x) conf.local_networks)
                    same h.2)),
        )
  ]

  is_local_direct_iff :
      (conf : AuthConf) (remote_addr : String)
      → (is_local_direct net conf remote_addr ≡ true) ↔ IsLocalDirect conf remote_addr
  unfolding is_local_direct
  is_local_direct_iff conf remote_addr = elim (Option-cases (net.split_host_port remote_addr)) [
    | inl e ↦ (λ h. absurd (ground (arith, e)), λ h. absurd (cc (e, h.1)))
    | inr (ip, e) ↦
        let listed = is_local_network_iff conf ip in
        (
          λ h. (ip, e, listed.0 (ground (arith, e, h)), ground (arith, e, h)),
          λ h.
              let same : h.0 ≡ ip = cc (e, h.1) in
              let in_net = listed.1 (subst (λ x. IsLocal conf x) same h.2) in
              let no_proxy = subst (λ x. contains conf.known_proxies x ≡ false) same h.3 in
              rw (e, is_local_direct) (rw (in_net, no_proxy) refl),
        )
  ]

  -- A request passes exactly if its peer is in a configured network, or is the address of the server
  -- where none is configured, and is no known proxy, or if its token is one of the configured ones,
  -- which hold the token itself or its SHA-256 sum.
  pub auth_required-passes :
      (sha256_hex : String → String) (conf : AuthConf) (remote_addr provided : String)
      → (auth_required net sha256_hex conf remote_addr provided ≡ true)
        ↔ (IsLocalDirect conf remote_addr ⊎ Some (IsTokenFor sha256_hex provided) conf.tokens)
  unfolding auth_required
  auth_required-passes sha256_hex conf remote_addr provided =
      let direct = is_local_direct_iff conf remote_addr in
      let token = any_token_matches_iff sha256_hex conf.tokens provided in
      elim (Bool-cases (is_local_direct net conf remote_addr)) [
        | inl e ↦ rw (e, auth_required) (λ h. inl (direct.0 e), λ h. refl)
        | inr e ↦
            rw (e, auth_required)
              (
                λ h. inr (token.0 h),
                λ h. elim h [ inl p ↦ absurd (cc (e, direct.1 p)) | inr p ↦ token.1 p ],
              )
      ]
