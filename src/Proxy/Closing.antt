-- ===== src/Proxy/Closing.antt =====
-- The listeners that are left when some are closed.
use anito.Prelude.{
  ℕ, ◌<◌, ◌≤◌, String, ◌≡◌, refl, ◌≢◌, inl, inr, List, [], ◌∷◌, ◌++◌, arith, ◌==◌, ℕ_comparable,
  Bool-cases, All, ==_refl, ==_of_ne, ne_of_==,
}
use anito.Proxy.Types.{Entry}
use anito.Proxy.Listeners.{close, close_all}

close_fresh :
    (l : ℕ) (listening : List ℕ) → All (λ k. k < l) listening → close l listening ≡ listening
unfolding close
close_fresh l [] h = refl
close_fresh l (k ∷ listening) (p, h) =
    rw (==_of_ne k l (λ e. absurd (omega (arith, e, p))), close_fresh l listening h) refl

pub close_self :
    (l : ℕ) (listening : List ℕ) → All (λ k. k < l) listening → close l (l ∷ listening) ≡ listening
unfolding close
close_self l listening h = rw (==_refl l) (close_fresh l listening h)

pub All-lt :
    (n n' : ℕ) (listening : List ℕ)
    → n ≤ n'
    → All (λ k. k < n) listening
    → All (λ k. k < n') listening
All-lt n n' [] h a = tt
All-lt n n' (k ∷ listening) h (p, a) = (omega (arith, h, p), All-lt n n' listening h a)

pub close_all-append :
    (pending : List (String × Entry)) (key : String) (e : Entry) (listening : List ℕ)
    → close_all (pending ++ (key, e) ∷ []) listening
      ≡ close e.listener (close_all pending listening)
unfolding close_all
close_all-append [] key e listening = refl
close_all-append ((j, d) ∷ pending) key e listening =
    close_all-append pending key e (close d.listener listening)

pub close_all-fresh :
    (l : ℕ) (pending : List (String × Entry)) (listening : List ℕ)
    → All (λ p. p.1.listener < l) pending
    → close_all pending (l ∷ listening) ≡ l ∷ close_all pending listening
unfolding close_all close
close_all-fresh l [] listening h = refl
close_all-fresh l ((key, e) ∷ pending) listening (p, h) =
    rw (==_of_ne l e.listener (λ q. absurd (omega (arith, q, p))))
      (close_all-fresh l pending (close e.listener listening) h)

-- A listener that is closed is not listened on any more, and closing adds none.
pub close-ne : (l : ℕ) (listening : List ℕ) → All (λ k. k ≢ l) (close l listening)
unfolding close
close-ne l [] = tt
close-ne l (k ∷ listening) = elim (Bool-cases (k == l)) [
  | inl p ↦ rw p (close-ne l listening)
  | inr p ↦ rw p (ne_of_== k l p, close-ne l listening)
]

pub close-All :
    (l n : ℕ) (listening : List ℕ)
    → All (λ k. k ≢ n) listening
    → All (λ k. k ≢ n) (close l listening)
unfolding close
close-All l n [] h = tt
close-All l n (k ∷ listening) (p, h) = elim (Bool-cases (k == l)) [
  | inl q ↦ rw q (close-All l n listening h)
  | inr q ↦ rw q (p, close-All l n listening h)
]
