-- ===== src/Step/Kept.antt =====
-- core/liblwm2m.c, `lwm2m_step`: a pass keeps the clients that are there.
use galileom2m.Prelude.{ℕ, Option, none, some, List, [], ◌∷◌, leb, if-elim}
use galileom2m.Coap.{Coap, internal_server_error}
use galileom2m.Context.{Client, Transaction, Context}
use galileom2m.Context.Preserve.{Returns, ok-Returns, bind-Returns, Stable}
use galileom2m.Transaction.Kept.{KeptWith, transaction_send-Kept}
use galileom2m.Step.{System, send_if_due, step_loop, step}

module _ (coap : Coap) (P : List Client → Type 0) (stable : Stable P) (system : System) where
  open coap use {Packet}

  abbrev KeptLoop : Context Packet × ℕ → Type 0
  KeptLoop a = P a.0.client_list

  abbrev pub KeptStep : Context Packet × ℕ × ℕ → Type 0
  KeptStep a = P a.0.client_list

  send_if_due-Kept :
      (seconds : ℕ) (c : Context Packet) (t : Transaction Packet)
      → P c.client_list
      → Returns (KeptWith coap P stable) (send_if_due coap system seconds c t)
  unfolding send_if_due
  send_if_due-Kept seconds c t kept =
      if-elim (leb t.retrans_time seconds) (Returns (KeptWith coap P stable))
        (transaction_send-Kept coap P stable (system.allocated t.self) (system.located t.self)
          (system.clock t.self) c t kept)
        (ok-Returns (KeptWith coap P stable) (c, t, 0) kept)

  step_loop-Kept :
      (seconds : ℕ) (c : Context Packet) (timeout : ℕ) (ts : List (Transaction Packet))
      → P c.client_list
      → Returns KeptLoop (step_loop coap system seconds c timeout ts)
  unfolding step_loop
  step_loop-Kept seconds c timeout [] kept = ok-Returns KeptLoop (c, timeout) kept
  step_loop-Kept seconds c timeout (t ∷ ts) kept =
      bind-Returns KeptLoop (KeptWith coap P stable) (send_if_due coap system seconds c t) _
        (send_if_due-Kept seconds c t kept) (λ a kept'. step_loop-Kept seconds a.0 _ ts kept')

  pub step-Kept :
      (now : Option ℕ) (c : Context Packet) (timeout : ℕ)
      → P c.client_list
      → Returns KeptStep (step coap system now c timeout)
  unfolding step
  step-Kept none c timeout kept = ok-Returns KeptStep (c, timeout, internal_server_error) kept
  step-Kept (some seconds) c timeout kept =
      bind-Returns KeptStep KeptLoop (step_loop coap system seconds c timeout c.transaction_list) _
        (step_loop-Kept seconds c timeout c.transaction_list kept)
        (λ a kept'. ok-Returns KeptStep (a.0, a.1, 0) kept')
