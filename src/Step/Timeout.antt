-- ===== src/Step/Timeout.antt =====
-- core/liblwm2m.c: how long the caller of `lwm2m_step` may wait.
use galileom2m.Prelude.{ℕ, ◌+◌, ◌≤◌, ◌≡◌, ◌⊎◌, List, [], ◌∷◌, All, ◌<◌, ◌≢◌}
use galileom2m.Coap.{Coap}
use galileom2m.Context.{ok, Transaction, Context}
use galileom2m.Step.{System, send_if_due}

module _ (coap : Coap) (system : System) where
  open coap use {Packet}

  -- What a pass from a context over a list does: the transactions that it keeps, as it leaves them,
  -- and the context at its end. A transaction is kept if it is not due, or if `transaction_send`
  -- returns 0 for it.
  pub data Pass (seconds : ℕ)
      : (c : Context Packet) (ts kept : List (Transaction Packet)) (c' : Context Packet)
        → Type 0 where
    over : {c : Context Packet} → Pass seconds c [] [] c
    keeps :
        {c c1 c2 : Context Packet} {t t' : Transaction Packet} {ts kept : List (Transaction Packet)}
        → send_if_due coap system seconds c t ≡ ok (c1, t', 0)
        → Pass seconds c1 ts kept c2
        → Pass seconds c (t ∷ ts) (t' ∷ kept) c2
    drops :
        {c c1 c2 : Context Packet} {t t' : Transaction Packet} {ts kept : List (Transaction Packet)}
        {removed : ℕ}
        → send_if_due coap system seconds c t ≡ ok (c1, t', removed)
        → removed ≢ 0
        → Pass seconds c1 ts kept c2
        → Pass seconds c (t ∷ ts) kept c2

  -- The wait is over by the time at which the transaction is due, or, if it is due already, after a
  -- second.
  abbrev pub WakesFor : ℕ → ℕ → Transaction Packet → Type 0
  WakesFor seconds timeout t =
      ((seconds < t.retrans_time) × (seconds + timeout ≤ t.retrans_time))
      ⊎ ((t.retrans_time ≤ seconds) × (timeout ≤ 1))

  -- The wait is exactly that of one of the transactions.
  abbrev pub IsWaitOf : ℕ → ℕ → List (Transaction Packet) → Type 0
  IsWaitOf seconds timeout [] = ⊥
  IsWaitOf seconds timeout (t ∷ ts) =
      ((seconds < t.retrans_time) × (seconds + timeout ≡ t.retrans_time))
      ⊎ ((t.retrans_time ≤ seconds) × (timeout ≡ 1))
      ⊎ IsWaitOf seconds timeout ts

  -- What a pass does, and what it makes of the wait.
  pub record Passed (seconds : ℕ) (c : Context Packet) (ts : List (Transaction Packet))
      (timeout : ℕ) (c' : Context Packet) (timeout' : ℕ) : Type 0 where
    pub kept : List (Transaction Packet)
    pub pass : Pass seconds c ts kept c'
    pub lower : timeout' ≤ timeout
    pub wakes : All (WakesFor seconds timeout') kept
    pub exact : (timeout' ≡ timeout) ⊎ IsWaitOf seconds timeout' kept
