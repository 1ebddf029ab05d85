-- ===== src/Step.antt =====
-- core/liblwm2m.c, `lwm2m_step`: the pass over the pending transactions. A callback that runs during
-- the pass is taken not to add or remove other transactions.
pub mod Timeout
pub mod Life
pub mod Kept
pub mod Dangling
mod Examples
use galileom2m.Prelude.{
  ℕ, ◌-◌, Bool, Option, none, some, List, [], ◌∷◌, ltb, leb, ◌==◌, if◌then◌else◌,
}
use galileom2m.Coap.{Coap, internal_server_error}
use galileom2m.Context.{Run, ok, ◌>>=◌, Transaction, Context}
use galileom2m.Transaction.{transaction_send}

-- What the system answers while a transaction is sent, by the transaction's address: the two
-- `malloc`s of `transaction_send` and its callback, and `gettimeofday`.
pub record System : Type 0 where
  pub allocated : ℕ → Bool
  pub located : ℕ → Bool
  pub clock : ℕ → Option ℕ

-- `timeoutP->tv_sec` after a transaction that is still there. `timeoutP->tv_usec` is left as it was,
-- and comes on top of the wait.
lower_timeout : ℕ → ℕ → ℕ → ℕ
lower_timeout seconds retrans_time timeout =
    let interval = if ltb seconds retrans_time then retrans_time - seconds else 1 in
    if ltb interval timeout then interval else timeout

module _ (coap : Coap) (system : System) where
  open coap use {Packet}

  pub send_if_due :
      ℕ → Context Packet → Transaction Packet → Run (Context Packet × Transaction Packet × ℕ)
  send_if_due seconds c t =
      if leb t.retrans_time seconds
      then transaction_send coap (system.allocated t.self) (system.located t.self)
          (system.clock t.self) c t
      else ok (c, t, 0)

  -- The list is what the pass has not reached. A transaction for which `removed` is not 0 is not
  -- read again.
  step_loop : ℕ → Context Packet → ℕ → List (Transaction Packet) → Run (Context Packet × ℕ)
  step_loop seconds c timeout [] = ok (c, timeout)
  step_loop seconds c timeout (t ∷ ts) = do
    (c', t', removed) ← send_if_due seconds c t
    step_loop seconds c'
        (if removed == 0 then lower_timeout seconds t'.retrans_time timeout else timeout) ts

  -- `now` is what `gettimeofday` tells the pass. The new context, `timeoutP->tv_sec`, the result.
  pub step : Option ℕ → Context Packet → ℕ → Run (Context Packet × ℕ × ℕ)
  step none c timeout = ok (c, timeout, internal_server_error)
  step (some seconds) c timeout = do
    (c', timeout') ← step_loop seconds c timeout c.transaction_list
    ok (c', timeout', 0)
