-- ===== src/Observe/Watchers.antt =====
-- core/observe.c: every entry of the observed list has a watcher, and `cancel_observe` relies on it.
use galileom2m.Prelude.{
  ℕ, ◌≡◌, ◌≢◌, refl, ◌⊎◌, inl, inr, Bool, false, Option, none, some, List, [], ◌∷◌, ◌++◌, ◌==◌,
  ◌&&◌, length, All, Option-cases, Bool-cases,
}
use mathlib.Core.Path.{subst}
use galileom2m.Context.{ok, Address, Server, Watcher, Observed, Context, at}
use galileom2m.Observe.{
  is_meant, remove_watcher, drop_watcher, cancel_loop, cancel_observe, same_bytes,
}

abbrev pub Live : List Server → Watcher → Type 0
Live servers w = (s : Server) × (at (λ s. s.self) w.server servers ≡ some s)

-- An entry has a watcher, and its watchers' servers are there.
abbrev pub Watched : List Server → Observed → Type 0
Watched servers o = (o.watcher_list ≢ []) × All (Live servers) o.watcher_list

is_meant_total :
    (servers : List Server) (mid : ℕ) (from : Address) (w : Watcher)
    → Live servers w
    → (b : Bool) × (is_meant servers mid from w ≡ ok b)
unfolding is_meant
is_meant_total servers mid from w (s, e) = elim (Bool-cases (w.last_mid == mid)) [
  | inl h ↦ (length s.addr == length from && same_bytes s.addr from, simp (h, e))
  | inr h ↦ (false, simp h)
]

carry {ℓ} : {A : Type 0} (P : A → Type ℓ) {xs ys : List A} → some xs ≡ some ys → All P xs → All P ys
carry P e h = subst (λ o. elim o [ none ↦ All P [] | some z ↦ All P z ]) e h

Kept : List Server → ℕ → Address → List Watcher → Type 0
Kept servers mid from watchers =
    (rest : Option (List Watcher)) × (remove_watcher servers mid from watchers ≡ ok rest)
    × ((ws : List Watcher) → rest ≡ some ws → All (Live servers) ws)

remove_watcher_total :
    (servers : List Server) (mid : ℕ) (from : Address) (watchers : List Watcher)
    → All (Live servers) watchers
    → Kept servers mid from watchers
unfolding remove_watcher Kept
remove_watcher_total servers mid from [] h = (none, refl, λ ws e. cc)
remove_watcher_total servers mid from (w ∷ watchers) (h, hs) =
    let (b, e) = is_meant_total servers mid from w h in
    let (rest, e', k) = remove_watcher_total servers mid from watchers hs in
    elim (Bool-cases b) [
      | inl t ↦ (some watchers, simp (e, t), λ ws i. carry (Live servers) i hs)
      | inr f ↦ elim (Option-cases rest) [
        | inl n ↦ (none, simp (e, f, e', n), λ ws i. cc)
        | inr (ws', j) ↦
            (some (w ∷ ws'), simp (e, f, e', j), λ ws i. carry (Live servers) i (h, k ws' j))
      ]
    ]

drop_watcher-Watched :
    (servers : List Server) (o : Observed) (watchers : List Watcher) (observed : List Observed)
    → All (Live servers) watchers
    → All (Watched servers) observed
    → All (Watched servers) (drop_watcher o watchers ++ observed)
unfolding drop_watcher
drop_watcher-Watched servers o [] observed h hs = hs
drop_watcher-Watched servers o (w ∷ watchers) observed h hs = (((λ e. cc), h), hs)

List-cases :
    (ws : List Watcher) → (ws ≡ []) ⊎ ((w : Watcher) × (rest : List Watcher) × (ws ≡ w ∷ rest))
List-cases [] = inl refl
List-cases (w ∷ ws) = inr (w, ws, refl)

-- The loop does not fault, and keeps what makes it so.
cancel_loop_total :
    (servers : List Server) (mid : ℕ) (from : Address) (observed : List Observed)
    → All (Watched servers) observed
    → (rest : List Observed) × (cancel_loop servers mid from observed ≡ ok rest)
      × All (Watched servers) rest
unfolding cancel_loop Kept
cancel_loop_total servers mid from [] h = ([], refl, tt)
cancel_loop_total servers mid from (o ∷ observed) ((some_watcher, live), hs) =
    elim (List-cases o.watcher_list) [
      | inl n ↦ elim (some_watcher n) [ ]
      | inr (w, ws, q) ↦
          let (removed, e, k) =
            remove_watcher_total servers mid from (w ∷ ws) (subst (All (Live servers)) q live) in
          let (rest, e', hs') = cancel_loop_total servers mid from observed hs in
          elim (Option-cases removed) [
            | inl n ↦ (o ∷ rest, simp (q, e, n, e'), ((some_watcher, live), hs'))
            | inr (ws', j) ↦ (
              drop_watcher o ws' ++ observed,
              simp (q, e, j),
              drop_watcher-Watched servers o ws' observed (k ws' j) hs,
            )
          ]
    ]

-- If every entry of the observed list has a watcher and the servers of the watchers are there, a
-- reset message is handled without a fault, and the same holds of the context afterwards.
pub cancel_observe_total :
    {Packet : Type 0} (c : Context Packet) (mid : ℕ) (from : Address)
    → All (Watched c.server_list) c.observed_list
    → (c' : Context Packet) × (cancel_observe c mid from ≡ ok c')
      × (c'.server_list ≡ c.server_list)
      × All (Watched c.server_list) c'.observed_list
unfolding cancel_observe
cancel_observe_total c mid from h =
    let (rest, e, h') = cancel_loop_total c.server_list mid from c.observed_list h in
    (record c { observed_list = rest }, simp e, refl, h')
