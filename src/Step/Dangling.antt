-- ===== src/Step/Dangling.antt =====
-- core/liblwm2m.c and core/registration.c: a client that deregisters while a request to it is pending.
use galileom2m.Prelude.{ℕ, ◌≤◌, ◌≡◌, refl, ◌∙◌, true, false, some, none, List, ◌∷◌, arith, leb}
use galileom2m.Coap.{Coap}
use galileom2m.Context.{fault, Client, endpoint_client, Transaction, Context, at}
use galileom2m.LinkedList.{list_find}
use galileom2m.LinkedList.Order.{list_remove-Removed}
use galileom2m.LinkedList.Addresses.{list_remove-gone}
use galileom2m.Uri.{Uri, is_set_resource}
use galileom2m.Registration.{delete_registration}
use galileom2m.Registration.Clients.{key, self_of, ClientsValid, delete_registration-list_remove}
use galileom2m.Transaction.{fill_buffer}
use galileom2m.Transaction.Gone.{transaction_send-gone}
use galileom2m.Step.{System, send_if_due, step_loop, step}

-- The client of a deregistration cannot be read through its address any more.
delete_registration-gone :
    (clients : List Client) (uri : Uri) (k : Client)
    → ClientsValid clients
    → is_set_resource uri ≡ false
    → list_find key clients uri.object_id ≡ some k
    → at self_of k.self (delete_registration clients uri).0 ≡ none
delete_registration-gone clients uri k valid h found =
    let (rises, (node, rest)) = list_remove-Removed key clients uri.object_id valid.rises in
    rw (delete_registration-list_remove clients uri h)
      (list_remove-gone key self_of clients uri.object_id k valid.addresses (node ∙ found))

-- When a client of a valid list deregisters, by a uri without a resource flag, while a request to
-- it is the first of the pending transactions, the next call of `lwm2m_step` at which the request
-- is due, and has its buffer or can fill it, reads the client through a dangling pointer, whatever
-- else is pending.
pub step-deregistered :
    (coap : Coap) (system : System) (c : Context coap.Packet) (uri : Uri) (k : Client)
    (t : Transaction coap.Packet) (ts : List (Transaction coap.Packet)) (bytes : List ℕ)
    (now timeout : ℕ)
    → ClientsValid c.client_list
    → is_set_resource uri ≡ false
    → list_find key c.client_list uri.object_id ≡ some k
    → t.peer ≡ endpoint_client k.self
    → t.retrans_time ≤ now
    → fill_buffer coap (system.allocated t.self) t t.buffer ≡ some bytes
    → step coap system
        (some now)
        (record c {
          client_list = (delete_registration c.client_list uri).0;
          transaction_list = t ∷ ts;
        })
        timeout
      ≡ fault
unfolding step step_loop send_if_due
step-deregistered coap system c uri k t ts bytes now timeout valid h found peer due ready =
    let is_due : leb t.retrans_time now ≡ true = ground arith in
    let c' = record c {
      client_list = (delete_registration c.client_list uri).0;
      transaction_list = t ∷ ts;
    } in
    rw
      (
        is_due,
        transaction_send-gone coap (system.allocated t.self) (system.located t.self)
            (system.clock t.self) c' t bytes k.self ready peer
            (delete_registration-gone c.client_list uri k valid h found),
      )
      refl
