-- ===== src/Service/Exclusive.antt =====
-- allocatePorts against the registry.
use anito.Prelude.{
  ℕ, ◌≤◌, String, ◌≡◌, ◌≢◌, ◌⊎◌, Bool, false, none, [], ◌∷◌, ℕ_comparable, text_comparable,
}
use anito.Assoc.{lookup}
use anito.Registry.Types.{Ports}
use anito.Registry.Store.{Registry}
use anito.Registry.Methods.{used_ports}
use anito.Registry.Used.{Named, Claimed, used_ports_iff}
use anito.Proxy.Types.{Proxies}
use anito.Proxy.Address.{Net}
use anito.Service.Ports.{is_reserved, is_used, ok, allocate_for, allocate_ports}
use anito.Service.Distinct.{AreNew, chain-AreNew, allocate_each-IsChain}

-- A port for the name `n`, where `q` is asked for and `later` are the ports that follow.
pub record IsExclusive (r : Registry) (n : String) (q : ℕ) (k : String) (p : ℕ) (later : Ports)
    : Type 0 where
  pub named : k ≡ n
  pub positive : p ≢ 0
  pub not_reserved : is_reserved p ≡ false
  pub allowed : (p ≡ q) ⊎ ((8100 ≤ p) × (p ≤ 8200))
  pub unclaimed : Claimed p r.services → ⊥
  pub distinct : Named p later → ⊥

abbrev pub AreExclusive : Registry → Ports → Ports → Type 0
AreExclusive r [] [] = Unit
AreExclusive r ((n, q) ∷ preferred) ((k, p) ∷ ports) =
    IsExclusive r n q k p ports × AreExclusive r preferred ports
AreExclusive r _ _ = ⊥

unused-unclaimed :
    (r : Registry) (p : ℕ) → is_used p (used_ports r) ≡ false → p ≢ 0 → Claimed p r.services → ⊥
unfolding is_used
unused-unclaimed r p u n c = cc (rw (is_used, (used_ports_iff p r).1 (n, c)) at u)

AreNew-AreExclusive :
    (r : Registry) (preferred ports : Ports)
    → AreNew preferred (used_ports r) ports
    → AreExclusive r preferred ports
AreNew-AreExclusive r [] [] h = tt
AreNew-AreExclusive r ((n, q) ∷ preferred) ((k, p) ∷ ports) ((a, f, d), rest) = (
  record {
    named = a;
    positive = f.positive;
    not_reserved = f.not_reserved;
    allowed = f.allowed;
    unclaimed = unused-unclaimed r p f.unused f.positive;
    distinct = d;
  },
  AreNew-AreExclusive r preferred ports rest,
)
AreNew-AreExclusive r [] (p ∷ ports) h = absurd h
AreNew-AreExclusive r (q ∷ preferred) [] h = absurd h

-- Where a service that is not registered gets ports, it gets one for each name that it asks for: the
-- preferred one or one from 8100 to 8200, never 0 or a port of the daemon itself, and none that an
-- entry of the registry has, archived or not, or that stands twice among the new ones.
pub allocate_ports-AreExclusive :
    (net : Net) (listens : ℕ → Bool) (name address : String) (preferred : Ports) (r : Registry)
    (m : Proxies) (ports : Ports)
    → lookup name r.services ≡ none
    → (allocate_ports net listens name address preferred r m).1 ≡ ok ports
    → AreExclusive r preferred ports
unfolding allocate_ports allocate_for
allocate_ports-AreExclusive net listens name address preferred r m ports h g =
    AreNew-AreExclusive r preferred ports (
      chain-AreNew preferred (used_ports r) ports (
        allocate_each-IsChain net listens name address preferred (used_ports r) m ports
          (rw (allocate_ports, h, allocate_for) at g)))
