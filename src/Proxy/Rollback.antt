-- ===== src/Proxy/Rollback.antt =====
-- What a failed registration leaves.
use anito.Prelude.{
  ℕ, suc, ◌<◌, ◌≤◌, String, ◌≡◌, refl, subst, ◌≢◌, inl, inr, Bool, true, false, none, some, List,
  [], ◌∷◌, ◌++◌, arith, ℕ_comparable, text_comparable, if◌then◌else◌, Bool-cases, All, ==_of_ne,
}
use anito.Assoc.{lookup}
use anito.Registry.Types.{Ports}
use anito.Proxy.Types.{Entry, Proxies, Error, cannot_bind}
use anito.Proxy.Keys.{entry_key}
use anito.Proxy.Closing.{close_self, All-lt, close_all-append, close_all-fresh}
use anito.Proxy.Listeners.{
  close_all, goes_on, fails, rebind, bind, pass, bind_each, register_ports, listened,
}

-- Every listener has been numbered.
abbrev pub IsNumbered : Proxies → Type 0
IsNumbered m = All (λ l. l < m.next) m.listening

-- The service has none of the ports.
abbrev pub IsNew : String → Ports → Proxies → Type 0
IsNew name ports m = All (λ p. lookup (entry_key name p.0) m.entries ≡ none) ports

-- The entries and routes stand, and closing what is pending gives back the listeners of the start.
record IsPending (m m' : Proxies) (pending : List (String × Entry)) : Type 0 where
  entries : m'.entries ≡ m.entries
  routes : m'.routes ≡ m.routes
  generations : m'.generations ≡ m.generations
  closes : close_all pending m'.listening ≡ m.listening
  older : All (λ p. p.1.listener < m'.next) pending
  numbered : m.next ≤ m'.next

-- What a failed call leaves.
pub record IsRolledBack (m after : Proxies) : Type 0 where
  pub entries : after.entries ≡ m.entries
  pub routes : after.routes ≡ m.routes
  pub generations : after.generations ≡ m.generations
  pub listening : after.listening ≡ m.listening

-- The entry of a new port.
abbrev bound_entry : String → String → ℕ → Proxies → Entry
bound_entry address port_name port m = record {
  stable_port = port;
  bind_address = address;
  port_name = port_name;
  listener = m.next;
  route = 0;
}

pass-new :
    (binds : String → Bool) (name address port_name : String) (port : ℕ) (m : Proxies)
    (pending : List (String × Entry))
    → lookup (entry_key name port_name) m.entries ≡ none
    → pass binds name address port_name port m pending ≡ (
        if binds port_name
        then goes_on
            (listened m)
            (pending ++ (entry_key name port_name, bound_entry address port_name port m) ∷ [])
        else fails
            (record m { listening = close_all pending m.listening })
            (cannot_bind port name port_name))
unfolding pass bind
pass-new binds name address port_name port m pending h = rw (pass, h) refl

All-append :
    (n : ℕ) (pending : List (String × Entry)) (key : String) (e : Entry)
    → All (λ p. p.1.listener < n) pending
    → e.listener < suc n
    → All (λ p. p.1.listener < suc n) (pending ++ (key, e) ∷ [])
All-append n [] key e h q = (q, tt)
All-append n ((j, d) ∷ pending) key e (p, h) q = (omega (arith, p), All-append n pending key e h q)

IsPending-next :
    (address name port_name : String) (port : ℕ) (m m' : Proxies) (pending : List (String × Entry))
    → IsNumbered m
    → IsPending m m' pending
    → IsPending m
        (listened m')
        (pending ++ (entry_key name port_name, bound_entry address port_name port m') ∷ [])
IsPending-next address name port_name port m m' pending d w = record {
  entries = w.entries;
  routes = w.routes;
  generations = w.generations;
  closes =
      rw
        (
          close_all-append pending (entry_key name port_name)
              (bound_entry address port_name port m') (m'.next ∷ m'.listening),
          close_all-fresh m'.next pending m'.listening w.older,
          w.closes,
        )
        (close_self m'.next m.listening (All-lt m.next m'.next m.listening w.numbered d));
  older =
      All-append m'.next pending (entry_key name port_name) (bound_entry address port_name port m')
        w.older (omega arith);
  numbered = omega (arith, w.numbered);
}

bind_each-IsRolledBack :
    (binds : String → Bool) (name address : String) (ports : Ports) (m m' : Proxies)
    (pending : List (String × Entry)) (after : Proxies) (e : Error)
    → IsNumbered m
    → IsNew name ports m
    → IsPending m m' pending
    → bind_each binds name address ports m' pending ≡ fails after e
    → IsRolledBack m after
unfolding bind_each
bind_each-IsRolledBack binds name address [] m m' pending after e d n w h = cc h
bind_each-IsRolledBack binds name address ((port_name, port) ∷ ports) m m' pending after e d (a, n)
      w h =
    elim (Bool-cases (binds port_name)) [
      | inl p ↦
          bind_each-IsRolledBack binds name address ports m (listened m')
            (pending ++ (entry_key name port_name, bound_entry address port_name port m') ∷ [])
            after e d n (IsPending-next address name port_name port m m' pending d w)
            (rw
              (bind_each, pass-new binds name address port_name port m' pending (rw w.entries a), p)
              at h)
      | inr p ↦ closed (
          rw (bind_each, pass-new binds name address port_name port m' pending (rw w.entries a), p)
            at h)
    ]
  where
    closed :
        fails
            (record m' { listening = close_all pending m'.listening })
            (cannot_bind port name port_name)
          ≡ fails after e
        → IsRolledBack m after
    closed q =
        let r : record m' { listening = close_all pending m'.listening } ≡ after = cc q in
        subst (IsRolledBack m) r (record {
          entries = w.entries;
          routes = w.routes;
          generations = w.generations;
          listening = w.closes;
        })

register-fails :
    (binds : String → Bool) (name address : String) (ports : Ports) (m : Proxies) (e : Error)
    → (register_ports binds name address ports m).1 ≡ some e
    → (after : Proxies) × (bind_each binds name address ports m [] ≡ fails after e)
      × ((register_ports binds name address ports m).0 ≡ after)
unfolding register_ports
register-fails binds name address ports m e h = ground arith

-- A registration that returns an error, of ports none of which the service has, leaves the entries,
-- the routes, what they lead to and the listeners as they were. The listeners at the start are all
-- below the next number.
pub register_ports-err :
    (binds : String → Bool) (name address : String) (ports : Ports) (m : Proxies) (e : Error)
    → IsNumbered m
    → IsNew name ports m
    → (register_ports binds name address ports m).1 ≡ some e
    → IsRolledBack m (register_ports binds name address ports m).0
unfolding close_all
register_ports-err binds name address ports m e d n h =
    let (after, q, r) = register-fails binds name address ports m e h in
    rw r (
      bind_each-IsRolledBack binds name address ports m m [] after e d n
        (record {
          entries = refl;
          routes = refl;
          generations = refl;
          closes = refl;
          older = tt;
          numbered = omega arith;
        })
        q)

-- When a port that the service does not have is bound, and a port that it has is to move and cannot
-- be bound, the call returns an error, the entries stand, and the new listener is still open.
pub register_ports_leak :
    (binds : String → Bool) (name address new_port old_port : String) (p q : ℕ) (m : Proxies)
    (old : Entry)
    → lookup (entry_key name new_port) m.entries ≡ none
    → lookup (entry_key name old_port) m.entries ≡ some old
    → old.stable_port ≢ q
    → binds new_port ≡ true
    → binds old_port ≡ false
    → ((register_ports binds name address ((new_port, p) ∷ (old_port, q) ∷ []) m).1
        ≡ some (cannot_bind q name old_port))
      × ((register_ports binds name address ((new_port, p) ∷ (old_port, q) ∷ []) m).0.entries
          ≡ m.entries)
      × ((register_ports binds name address ((new_port, p) ∷ (old_port, q) ∷ []) m).0.listening
          ≡ m.next ∷ m.listening)
unfolding register_ports bind_each pass bind rebind
register_ports_leak binds name address new_port old_port p q m old g h n t f =
    rw
      (
        register_ports,
        bind_each,
        pass,
        g,
        bind,
        t,
        pass,
        h,
        rebind,
        ==_of_ne old.stable_port q n,
        f,
      )
      (refl, refl, refl)
