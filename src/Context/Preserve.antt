-- ===== src/Context/Preserve.antt =====
-- Properties of the list of clients that hold of whatever a run returns.
use mathlib.Core.Path.{subst}
use galileom2m.Prelude.{ℕ, ◌≡◌, refl, ap, ◌∙◌, Option, none, some, List, [], ◌∷◌, arith}
use galileom2m.Context.{Run, ok, fault, ◌>>=◌, deref, Client, at, store, >>=-eq-ok}
use galileom2m.Context.Store.{at_nil, at_cons}

-- What a run returns has a property.
pub record Returns {A : Type 0} (P : A → Type 0) (run : Run A) : Type 0 where
  pub returned : (a : A) → run ≡ ok a → P a

module _ {A : Type 0} (P : A → Type 0) where
  pub ok-Returns : (a : A) → P a → Returns P (ok a)
  ok-Returns a p = record { returned = λ a' e. (let same : a ≡ a' = cc in subst P same p) }

  pub fault-Returns : Returns P fault
  fault-Returns = record { returned = λ a e. cc }

  pub bind-Returns :
      {B : Type 0} (Q : B → Type 0) (first : Run B) (next : B → Run A)
      → Returns Q first
      → ((b : B) → Q b → Returns P (next b))
      → Returns P (first >>= next)
  bind-Returns Q first next r rest = record {
    returned = λ a e.
        (let (b, through, last) = >>=-eq-ok first next e in
          (rest b (r.returned b through)).returned a last);
  }

  -- Whatever the first part returns.
  pub any-Returns :
      {B : Type 0} (first : Run B) (next : B → Run A)
      → ((b : B) → Returns P (next b))
      → Returns P (first >>= next)
  any-Returns first next rest =
      bind-Returns (λ b. Unit {0}) first next (record { returned = λ b e. tt }) (λ b u. rest b)

-- A property that is kept when a client is written that is there, with its id.
abbrev pub Stable : (List Client → Type 0) → Type 0
Stable P =
    (k k' : Client) (clients : List Client)
    → at (λ k. k.self) k.self clients ≡ some k
    → k'.internal_id ≡ k.internal_id
    → k'.self ≡ k.self
    → P clients
    → P (store (λ k. k.self) k' clients)

at-address :
    (p : ℕ) (k : Client) (clients : List Client) → at (λ k. k.self) p clients ≡ some k → k.self ≡ p
at-address p k [] found = ground (arith, at_nil (λ (k : Client). k.self) p)
at-address p k (x ∷ clients) found =
    ground (arith, at_cons (λ k. k.self) p x clients, at-address p k clients)

pub at-self :
    (p : ℕ) (k : Client) (clients : List Client)
    → at (λ k. k.self) p clients ≡ some k
    → at (λ k. k.self) k.self clients ≡ some k
at-self p k clients found =
    ap (λ q. at (λ k. k.self) q clients) (at-address p k clients found) ∙ found

pub deref-Returns :
    {A : Type 0} (P : A → Type 0) (o : Option A)
    → ((a : A) → o ≡ some a → P a)
    → Returns P (deref o)
deref-Returns P none found = fault-Returns P
deref-Returns P (some a) found = ok-Returns P a (found a refl)
