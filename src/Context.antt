-- ===== src/Context.antt =====
-- The data of core/liblwm2m.h: the context and what its lists hold. A pointer to a server, a client,
-- an observation or a transaction is a number, its address; the record at that address carries it
-- as `self` and stands in the list that owns it. An address that no record of the list carries is
-- dangling, and reading through it is a fault. Fields that no modelled function reads are left out.
pub mod Store
pub mod Preserve
use galileom2m.Prelude.{
  ℕ, ◌≡◌, ◌⊎◌, inl, inr, refl, Bool, true, false, Option, none, some, List, [], ◌∷◌, ◌++◌, ◌==◌,
  if◌then◌else◌, arith,
}
use galileom2m.Uri.{Uri}

-- A run of code that may read through a dangling or NULL pointer.
pub data Run {ℓ} (A : Type ℓ) : Type ℓ where
  ok : A → Run A
  fault : Run A

infixl 5 ◌>>=◌
abbrev pub ◌>>=◌ {ℓ κ} : {A : Type ℓ} {B : Type κ} → Run A → (A → Run B) → Run B
ok value >>= next = next value
fault >>= next = fault

-- A run that got through to `b` had a first part that got through.
pub >>=-eq-ok {ℓ κ} :
    {A : Type ℓ} {B : Type κ} (first : Run A) (next : A → Run B) {b : B}
    → (first >>= next) ≡ ok b
    → (a : A) × (first ≡ ok a) × (next a ≡ ok b)
>>=-eq-ok fault next through = cc
>>=-eq-ok (ok a) next through = (a, refl, through)

pub >>=-assoc {ℓ κ μ} :
    {A : Type ℓ} {B : Type κ} {C : Type μ} (first : Run A) (next : A → Run B) (last : B → Run C)
    → ((first >>= next) >>= last) ≡ (first >>= λ a. next a >>= last)
>>=-assoc (ok a) next last = refl
>>=-assoc fault next last = refl

abbrev pub deref {ℓ} : {A : Type ℓ} → Option A → Run A
deref none = fault
deref (some a) = ok a

-- The number -1 as a 32-bit int.
abbrev pub minus_one : ℕ
minus_one = 0xffff_ffff

abbrev pub Address : Type 0
Address = List ℕ

pub data Status : Type 0 where
  unknown reg_pending registered : Status

pub record Server : Type 0 where
  pub self : ℕ
  pub short_id : ℕ
  pub addr : Address
  pub status : Status
  pub location : Option (List ℕ)
  pub mid : ℕ

pub record Observation : Type 0 where
  pub self : ℕ
  pub id : ℕ
  pub uri : Uri
  pub status : Status
  pub callback : ℕ
  pub user_data : ℕ

pub record ClientObject : Type 0 where
  pub id : ℕ
  pub instance_list : List ℕ

pub record Client : Type 0 where
  pub self : ℕ
  pub internal_id : ℕ
  pub name : List ℕ
  pub addr : Address
  pub object_list : List ClientObject
  pub observation_list : List Observation

pub record Watcher : Type 0 where
  pub server : ℕ
  pub token : List ℕ
  pub counter : ℕ
  pub last_mid : ℕ

pub record Observed : Type 0 where
  pub self : ℕ
  pub uri : Uri
  pub watcher_list : List Watcher

-- `peerType` with `peerP`.
pub data Peer : Type 0 where
  endpoint_unknown endpoint_bootstrap : Peer
  endpoint_client endpoint_server : ℕ → Peer

-- `callback` with `userData`: `dm_result_callback` with its `dm_data_t`, `prv_obsRequestCallback`
-- with the address of an observation, `prv_handleRegistrationReply`.
pub data Callback : Type 0 where
  no_callback registration_reply : Callback
  dm_result : Uri → ℕ → ℕ → Callback
  obs_request : ℕ → Callback

pub record Transaction (Packet : Type 0) : Type 0 where
  pub self : ℕ
  pub mid : ℕ
  pub peer : Peer
  pub retrans_counter : ℕ
  pub retrans_time : ℕ
  pub message : Packet
  pub buffer : Option (List ℕ)
  pub callback : Callback

-- One call of an application's `lwm2m_result_callback_t`.
pub record Notice : Type 0 where
  pub callback : ℕ
  pub client_id : ℕ
  pub uri : Uri
  pub status : ℕ
  pub content : List ℕ
  pub user_data : ℕ

-- Both modes of the library at once. `sent` and `notices` record the calls of `buffer_send` and of
-- the application's callbacks, the newest first.
pub record Context (Packet : Type 0) : Type 0 where
  pub endpoint_name : List ℕ
  pub bootstrap_server : Option ℕ
  pub server_list : List Server
  pub observed_list : List Observed
  pub client_list : List Client
  pub next_mid : ℕ
  pub transaction_list : List (Transaction Packet)
  pub sent : List (Address × List ℕ)
  pub notices : List Notice

-- Reading and writing through a pointer, and unlinking the record that it points at.
module _ {A : Type 0} (self : A → ℕ) where
  unfoldable pub at : ℕ → List A → Option A
  at p [] = none
  at p (x ∷ xs) = if self x == p then some x else at p xs

  unfoldable pub store : A → List A → List A
  store new [] = []
  store new (x ∷ xs) = if self x == self new then new ∷ xs else x ∷ store new xs

  pub unlink_at : ℕ → List A → List A
  unlink_at p [] = []
  unlink_at p (x ∷ xs) = if self x == p then xs else x ∷ unlink_at p xs
