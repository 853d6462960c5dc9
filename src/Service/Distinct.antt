-- ===== src/Service/Distinct.antt =====
-- No two stable ports are the same: the ports of a new service against one another and against those
-- of the registry.
use anito.Prelude.{
  ℕ, String, ◌≡◌, refl, sym, ◌≢◌, inl, inr, Bool, true, false, List, [], ◌∷◌, Bool-cases, ◌==◌,
  ℕ_comparable, text_comparable, ne_of_==,
}
use anito.Assoc.{insert, lookup-insert}
use anito.Registry.Types.{Ports}
use anito.Registry.Used.{Named}
use anito.Proxy.Types.{Proxies}
use anito.Proxy.Address.{Net}
use anito.Service.Ports.{is_used, Allocation, ok, err, allocate_one_port, with_port, allocate_each}
use anito.Service.Allotted.{IsFit, IsChain, allocate_one_port-IsFit}

module _ (net : Net) (listens : ℕ → Bool) (name address : String) where
  with_port-ok :
      (port_name : String) (port : ℕ) (o : Proxies × Allocation Ports) (ports : Ports)
      → (with_port net listens name address port_name port o).1 ≡ ok ports
      → (rest : Ports) × (o.1 ≡ ok rest) × ((port_name, port) ∷ rest ≡ ports)
  unfolding with_port
  with_port-ok port_name port (m, ok rest) ports h = (rest, refl, cc)
  with_port-ok port_name port (m, err e) ports h = cc

  abbrev pub Rest : Ports → List (ℕ × Bool) → Type 0
  Rest preferred used =
      (m : Proxies) (ports : Ports)
      → (allocate_each net listens name address preferred used m).1 ≡ ok ports
      → IsChain preferred used ports

  one_more :
      (n : String) (q : ℕ) (preferred : Ports) (used : List (ℕ × Bool)) (m : Proxies)
      (ports : Ports)
      → ((p : ℕ) → Rest preferred (insert p true used))
      → (allocate_each net listens name address ((n, q) ∷ preferred) used m).1 ≡ ok ports
      → IsChain ((n, q) ∷ preferred) used ports
  unfolding allocate_each
  one_more n q preferred used m ports rest h =
      by (allocate_one_port net listens name address n q used m).1 refl
    where
      by :
          (r : Allocation ℕ)
          → (allocate_one_port net listens name address n q used m).1 ≡ r
          → IsChain ((n, q) ∷ preferred) used ports
      by (err e) k = cc (rw (allocate_each, k) at h)
      by (ok p) k =
          let (left, a, b) = with_port-ok n p _ ports (rw (allocate_each, k) at h) in
          rw (← b)
            (refl, allocate_one_port-IsFit net listens name address n q used m p k, rest p _ left a)

  pub allocate_each-IsChain : (preferred : Ports) (used : List (ℕ × Bool)) → Rest preferred used
  unfolding allocate_each
  allocate_each-IsChain [] used m ports h = let e : [] ≡ ports = cc in rw (← e) tt
  allocate_each-IsChain ((n, q) ∷ preferred) used m ports h =
      one_more n q preferred used m ports
        (λ p. allocate_each-IsChain preferred (insert p true used)) h

-- What the ports of a chain are.
abbrev pub AreNew : Ports → List (ℕ × Bool) → Ports → Type 0
AreNew [] used [] = Unit
AreNew ((n, q) ∷ preferred) used ((k, p) ∷ ports) =
    ((k ≡ n) × IsFit q p used × (Named p ports → ⊥)) × AreNew preferred used ports
AreNew _ used _ = ⊥

is_used-insert :
    (p q : ℕ) (used : List (ℕ × Bool))
    → is_used p (insert q true used) ≡ false
    → (q ≢ p) × (is_used p used ≡ false)
unfolding is_used
is_used-insert p q used h = elim (Bool-cases (q == p)) [
  | inl e ↦ cc (rw (is_used, lookup-insert q p true used, e) at h)
  | inr e ↦ (ne_of_== q p e, rw (is_used, lookup-insert q p true used, e) at h)
]

weaker : (q p x : ℕ) (used : List (ℕ × Bool)) → IsFit q p (insert x true used) → IsFit q p used
weaker q p x used f = record {
  unused = (is_used-insert p x used f.unused).1;
  positive = f.positive;
  not_reserved = f.not_reserved;
  allowed = f.allowed;
}

AreNew-weaker :
    (preferred : Ports) (used : List (ℕ × Bool)) (ports : Ports) (x : ℕ)
    → AreNew preferred (insert x true used) ports
    → AreNew preferred used ports × (Named x ports → ⊥)
AreNew-weaker [] used [] x h = (tt, λ e. e)
AreNew-weaker ((n, q) ∷ preferred) used ((k, p) ∷ ports) x ((a, f, d), rest) =
    let (r, g) = AreNew-weaker preferred used ports x rest in
    (
      ((a, weaker q p x used f, d), r),
      elim [ inl e ↦ (is_used-insert p x used f.unused).0 (sym e) | inr e ↦ g e ],
    )
AreNew-weaker [] used (p ∷ ports) x h = absurd h
AreNew-weaker (q ∷ preferred) used [] x h = absurd h

pub chain-AreNew :
    (preferred : Ports) (used : List (ℕ × Bool)) (ports : Ports)
    → IsChain preferred used ports
    → AreNew preferred used ports
chain-AreNew [] used [] h = tt
chain-AreNew ((n, q) ∷ preferred) used ((k, p) ∷ ports) (a, f, rest) =
    let (r, d) =
      AreNew-weaker preferred used ports p
        (chain-AreNew preferred (insert p true used) ports rest) in
    ((a, f, d), r)
chain-AreNew [] used (p ∷ ports) h = absurd h
chain-AreNew (q ∷ preferred) used [] h = absurd h
