-- ===== src/Network/ClientIp.antt =====
-- Whose word the headers are: `get_client_ip` of addon/src/captive_portal/utils/network_utils.py
use homeassistant_captive_po.Base.{
  ap, ◌≡◌, ◌≢◌, ◌⊎◌, inl, inr, Text, text_eq, text_eq_iff, codes, Bool, true, false, strip, Option,
  none, some, List, [], ◌∷◌, ◌++◌, refl, arith, Bool-cases, All, subst, sym,
}
use homeassistant_captive_po.Network.{
  IpAddress, Request, present, any_network, is_trusted, before_comma, stripped_first, valid_or,
  get_client_ip,
}

-- One network has the peer, and those before it are networks that do not.
abbrev pub IsInSome : IpAddress → Text → List Text → Type 0
IsInSome ips peer nets =
    (before : List Text) × (net : Text) × (after : List Text) × (nets ≡ before ++ net ∷ after)
    × (ips.in_network peer net ≡ some true)
    × All (λ n. ips.in_network peer n ≡ some false) before

-- None has it, or a text that is no network comes before any that has it.
abbrev pub IsInNone : IpAddress → Text → List Text → Type 0
IsInNone ips peer nets =
    All (λ n. ips.in_network peer n ≡ some false) nets
    ⊎ ((before : List Text) × (net : Text) × (after : List Text) × (nets ≡ before ++ net ∷ after)
        × (ips.in_network peer net ≡ none)
        × All (λ n. ips.in_network peer n ≡ some false) before)

-- The peer's headers are believed: no network is listed, or the peer is an address in one.
abbrev pub Believes : IpAddress → Text → List Text → Type 0
Believes ips peer nets = (nets ≡ []) ⊎ ((ips.is_address peer ≡ true) × IsInSome ips peer nets)

abbrev pub Doubts : IpAddress → Text → List Text → Type 0
Doubts ips peer nets = (ips.is_address peer ≡ false) ⊎ IsInNone ips peer nets

-- The address that X-Forwarded-For names: its text before the first comma, without spaces around.
abbrev pub forwarded_for : Request → List Text
forwarded_for request = elim (present request.x_forwarded_for) [
  | none ↦ []
  | some xff ↦ strip (before_comma xff) ∷ []
]

abbrev pub real_ip : Request → List Text
real_ip request = elim (present request.x_real_ip) [ none ↦ [] | some ip ↦ ip ∷ [] ]

-- What the headers name, the first that counts first.
abbrev pub named : Request → List Text
named request = forwarded_for request ++ real_ip request

-- The first of the names that is an address, or the peer's where none is.
abbrev pub IsNamed : IpAddress → Text → List Text → Text → Type 0
IsNamed ips peer [] ip = ip ≡ peer
IsNamed ips peer (name ∷ names) ip =
    ((ips.is_address name ≡ true) × (ip ≡ name))
    ⊎ ((ips.is_address name ≡ false) × IsNamed ips peer names ip)

-- Which address a request has.
abbrev pub IsClientIp : IpAddress → Request → Bool → List Text → Text → Type 0
IsClientIp ips request trust_proxies nets ip =
    ((request.client_host ≡ none) × (ip ≡ codes "unknown"))
    ⊎ ((peer : Text) × (request.client_host ≡ some peer)
        × (((ip ≡ peer)
              × ((trust_proxies ≡ false)
                  ⊎ (peer ≡ codes "unknown")
                  ⊎ ((nets ≢ []) × Doubts ips peer nets)))
            ⊎ ((trust_proxies ≡ true)
                × Believes ips peer nets
                × IsNamed ips peer (named request) ip)))

module _ (ips : IpAddress) (peer : Text) where
  any_network-cases :
      (nets : List Text)
      → ((any_network ips peer nets ≡ some true) × IsInSome ips peer nets)
        ⊎ ((any_network ips peer nets ≢ some true) × IsInNone ips peer nets)
  unfolding any_network
  any_network-cases [] = inr ((λ k. ground (arith, k)), inl tt)
  any_network-cases (net ∷ nets) = go (any_network-cases nets) (ips.in_network peer net) refl
    where
      go :
          ((any_network ips peer nets ≡ some true) × IsInSome ips peer nets)
            ⊎ ((any_network ips peer nets ≢ some true) × IsInNone ips peer nets)
          → (o : Option Bool) → ips.in_network peer net ≡ o
          → ((any_network ips peer (net ∷ nets) ≡ some true) × IsInSome ips peer (net ∷ nets))
            ⊎ ((any_network ips peer (net ∷ nets) ≢ some true) × IsInNone ips peer (net ∷ nets))
      go rest none e = inr ((λ k. ground (arith, e, k)), inr ([], net, nets, refl, e, tt))
      go rest (some true) e = inl (ground (arith, e), ([], net, nets, refl, e, tt))
      go rest (some false) e = elim rest [
        | inl (q, (before, n, after, s, hit, misses)) ↦
            inl (
              rw (e, any_network) q,
              (net ∷ before, n, after, ap (λ l. net ∷ l) s, hit, (e, misses)),
            )
        | inr (q, inl misses) ↦ inr (rw (e, any_network) q, inl (e, misses))
        | inr (q, inr (before, n, after, s, bad, misses)) ↦ inr (
          rw (e, any_network) q,
          inr (net ∷ before, n, after, ap (λ l. net ∷ l) s, bad, (e, misses)),
        )
      ]

  is_trusted-cases :
      (nets : List Text)
      → ((is_trusted ips peer nets ≡ true) × Believes ips peer nets)
        ⊎ ((is_trusted ips peer nets ≡ false) × (nets ≢ []) × Doubts ips peer nets)
  is_trusted-cases [] = inl (refl, inl refl)
  is_trusted-cases (net ∷ nets) = elim (Bool-cases (ips.is_address peer)) [
    | inr a ↦ inr (ground (arith, a), (λ k. cc), inl a)
    | inl a ↦ elim (any_network-cases (net ∷ nets)) [
      | inl (q, some_net) ↦ inl (rw (a, q) refl, inr (a, some_net))
      | inr (q, no_net) ↦ inr (ground (arith, a, q), (λ k. cc), inr no_net)
    ]
  ]

  valid_or-IsNamed :
      (request : Request)
      → IsNamed ips peer (named request) (
          valid_or ips
            (stripped_first (present request.x_forwarded_for))
            (valid_or ips (present request.x_real_ip) peer))
  valid_or-IsNamed request = go (present request.x_forwarded_for) (present request.x_real_ip)
    where
      names : Option Text → Option Text → List Text
      names f r =
          (elim f [ none ↦ [] | some xff ↦ strip (before_comma xff) ∷ [] ])
          ++ (elim r [ none ↦ [] | some ip ↦ ip ∷ [] ])

      real : (r : Option Text) → IsNamed ips peer (names none r) (valid_or ips r peer)
      real none = refl
      real (some ip) = elim (Bool-cases (ips.is_address ip)) [
        | inl e ↦ rw e (inl (refl, refl))
        | inr e ↦ rw e (inr (refl, refl))
      ]

      go :
          (f r : Option Text)
          → IsNamed ips peer (names f r) (valid_or ips (stripped_first f) (valid_or ips r peer))
      go none r = real r
      go (some xff) r = elim (Bool-cases (ips.is_address (strip (before_comma xff)))) [
        | inl e ↦ rw e (inl (refl, refl))
        | inr e ↦ rw e (inr (refl, real r))
      ]

-- The address of a request without a peer is "unknown". Otherwise it is the peer's, where proxies are
-- not trusted, the peer is "unknown", or networks are listed and the peer is no address or in none
-- of them, a text that is no network ending the search; and where proxies are trusted and no network
-- is listed or the peer is an address in one of them, it is the first valid address of those that
-- X-Forwarded-For (before its first comma) and X-Real-IP name, or the peer's without one.
pub get_client_ip-IsClientIp :
    (ips : IpAddress) (request : Request) (trust_proxies : Bool) (trusted_networks : List Text)
    → IsClientIp ips request trust_proxies trusted_networks
        (get_client_ip ips request trust_proxies trusted_networks)
unfolding get_client_ip
get_client_ip-IsClientIp ips request trust_proxies nets = go request.client_host refl
  where
    answer : Text
    answer = get_client_ip ips request trust_proxies nets

    go :
        (o : Option Text)
        → request.client_host ≡ o
        → IsClientIp ips request trust_proxies nets answer
    go none e = inl (e, ground (arith, e))
    go (some peer) e = inr (
      peer,
      e,
      elim (Bool-cases trust_proxies) [
        | inr d ↦ inl (ground (arith, e, d), inl d)
        | inl d ↦ elim (Bool-cases (text_eq peer (codes "unknown"))) [
          | inl u ↦ inl (ground (arith, e, u), inr (inl ((text_eq_iff peer (codes "unknown")).0 u)))
          | inr u ↦ elim (is_trusted-cases ips peer nets) [
            | inr (n, listed, doubt) ↦ inl (ground (arith, e, d, n), inr (inr (listed, doubt)))
            | inl (t, belief) ↦
                let q : answer
                    ≡ valid_or ips (stripped_first (present request.x_forwarded_for))
                        (valid_or ips (present request.x_real_ip) peer) =
                  ground (arith, e, d, u, t) in
                inr (
                  d,
                  belief,
                  subst (IsNamed ips peer (named request)) (sym q)
                      (valid_or-IsNamed ips peer request),
                )
          ]
        ]
      ],
    )
