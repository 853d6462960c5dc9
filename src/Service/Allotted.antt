-- ===== src/Service/Allotted.antt =====
-- The ports that a new service gets.
use anito.Prelude.{
  ℕ, zero, suc, ◌+◌, ◌≤◌, ◌<◌, String, ◌≡◌, refl, sym, ap, ◌∙◌, ◌≢◌, ◌⊎◌, inl, inr, Bool, true,
  false, Option, none, some, List, [], ◌∷◌, Bool-cases, Option-cases, arith, ◌==◌, ℕ_comparable,
  text_comparable, ne_of_==,
}
use anito.Assoc.{insert}
use anito.Registry.Types.{Ports}
use anito.Proxy.Types.{Proxies, Error}
use anito.Proxy.Address.{Net}
use anito.Service.Ports.{
  is_reserved, is_used, ok, register_one, scan, scan_range, try_preferred, allocate_one_port,
  port_range_start, port_range_end,
}

-- A port that may be given out where `preferred` is asked for.
pub record IsFit (preferred port : ℕ) (used : List (ℕ × Bool)) : Type 0 where
  pub unused : is_used port used ≡ false
  pub positive : port ≢ 0
  pub not_reserved : is_reserved port ≡ false
  pub allowed : (port ≡ preferred) ⊎ ((8100 ≤ port) × (port ≤ 8200))

-- Each port is fit where those before it are in use too.
abbrev pub IsChain : Ports → List (ℕ × Bool) → Ports → Type 0
IsChain [] used [] = Unit
IsChain ((n, q) ∷ preferred) used ((k, p) ∷ ports) =
    (k ≡ n) × IsFit q p used × IsChain preferred (insert p true used) ports
IsChain _ used _ = ⊥

range-IsFit :
    (preferred p : ℕ) (used : List (ℕ × Bool))
    → is_used p used ≡ false
    → 8100 ≤ p
    → p ≤ 8200
    → IsFit preferred p used
range-IsFit preferred p used u a b = record {
  unused = u;
  positive = λ e. omega (arith, a, e);
  not_reserved = ground (arith, a);
  allowed = inr (a, b);
}

module _ (net : Net) (listens : ℕ → Bool) (name address : String) where
  scan-unused :
      (port_name : String) (n port : ℕ) (used : List (ℕ × Bool)) (m : Proxies) (p : ℕ)
      → (scan net listens name address port_name n port used m).1 ≡ ok p
      → (is_used p used ≡ false) × (port ≤ p) × (p < port + n)
  unfolding scan
  scan-unused port_name zero port used m p h = cc
  scan-unused port_name (suc n) port used m p h = elim (Bool-cases (is_used port used)) [
    | inl u ↦ later (scan-unused port_name n (suc port) used m p (rw (scan, u) at h))
    | inr u ↦ elim (Option-cases (register_one net listens name address port_name port m).1) [
      | inl f ↦ here u (cc (rw (scan, u, f) at h))
      | inr (e, f) ↦ later (scan-unused port_name n (suc port) used _ p (rw (scan, u, f) at h))
    ]
  ]
    where
      later :
          (is_used p used ≡ false) × (suc port ≤ p) × (p < suc port + n)
          → (is_used p used ≡ false) × (port ≤ p) × (p < port + suc n)
      later (u, a, b) = (u, omega arith, omega arith)

      here :
          is_used port used ≡ false
          → port ≡ p
          → (is_used p used ≡ false) × (port ≤ p) × (p < port + suc n)
      here u e = (ap (λ k. is_used k used) (sym e) ∙ u, omega (arith, e), omega (arith, e))

  scan_range-IsFit :
      (port_name : String) (preferred : ℕ) (used : List (ℕ × Bool)) (m : Proxies) (p : ℕ)
      → (scan_range net listens name address port_name used m).1 ≡ ok p
      → IsFit preferred p used
  unfolding scan_range port_range_start port_range_end
  scan_range-IsFit port_name preferred used m p h =
      let (u, a, b) = scan-unused port_name 101 8100 used m p h in
      range-IsFit preferred p used u a (omega arith)

  try_preferred-IsFit :
      (port_name : String) (preferred : ℕ) (used : List (ℕ × Bool)) (o : Proxies × Option Error)
      (p : ℕ)
      → IsFit preferred preferred used
      → (try_preferred net listens name address port_name preferred used o).1 ≡ ok p
      → IsFit preferred p used
  unfolding try_preferred
  try_preferred-IsFit port_name preferred used (m, none) p f h =
      let e : preferred ≡ p = cc in rw (← e) f
  try_preferred-IsFit port_name preferred used (m, some e) p f h =
      scan_range-IsFit port_name preferred used m p h

  pub allocate_one_port-IsFit :
      (port_name : String) (preferred : ℕ) (used : List (ℕ × Bool)) (m : Proxies) (p : ℕ)
      → (allocate_one_port net listens name address port_name preferred used m).1 ≡ ok p
      → IsFit preferred p used
  unfolding allocate_one_port
  allocate_one_port-IsFit port_name preferred used m p h = elim (Bool-cases (preferred == 0)) [
    | inl a ↦ scan_range-IsFit port_name preferred used m p (rw (allocate_one_port, a) at h)
    | inr a ↦ elim (Bool-cases (is_reserved preferred)) [
      | inl b ↦ cc (rw (allocate_one_port, a, b) at h)
      | inr b ↦ elim (Bool-cases (is_used preferred used)) [
        | inl c ↦
            scan_range-IsFit port_name preferred used m p (rw (allocate_one_port, a, b, c) at h)
        | inr c ↦
            try_preferred-IsFit port_name preferred used _ p
              (record {
                unused = c;
                positive = ne_of_== preferred 0 a;
                not_reserved = b;
                allowed = inl refl;
              })
              (rw (allocate_one_port, a, b, c) at h)
      ]
    ]
  ]
