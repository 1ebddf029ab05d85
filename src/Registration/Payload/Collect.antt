-- ===== src/Registration/Payload/Collect.antt =====
-- core/registration.c: the list of objects that the entries of a registration add up to.
use galileom2m.Prelude.{
  ℕ, suc, ◌<◌, ◌≡◌, ◌≢◌, refl, ap, ◌∙◌, Option, none, some, List, [], ◌∷◌, ◌++◌, arith, All,
  append-nil, sym, append_assoc, map,
}
use galileom2m.Context.{ClientObject}
use galileom2m.LinkedList.Order.{RisesFrom, Rises}
use galileom2m.LinkedList.Last.{
  Below, Below-mono, Below-snoc, list_add_last, list_find_last, list_find_above,
}
use galileom2m.Objects.{
  Object, Entry, entries, object_entries, instance_entries, get_register_payload,
}
use galileom2m.Objects.Printed.{get_register_payload-entries}
use galileom2m.Registration.{add_instance, put_object, add_id, decode_register_payload}
use galileom2m.Registration.Payload.{Readable, named, collect, decode_register_payload-collect}

abbrev object_key : ClientObject → ℕ
object_key o = o.id

abbrev number_key : ℕ → ℕ
number_key n = n

abbrev object_of : ℕ → List ℕ → ClientObject
object_of id instances = record { id = id; instance_list = instances }

put_object_last :
    (id : ℕ) (before : List ClientObject) (old new : List ℕ)
    → Below object_key id before
    → put_object (object_of id new) (before ++ (object_of id old ∷ []))
      ≡ before ++ (object_of id new ∷ [])
unfolding put_object
put_object_last id [] old new below = ground arith
put_object_last id (o ∷ before) old new (one, below) =
    ground (arith, put_object_last id before old new below)

-- The first instance of an entry.
abbrev alone : Option ℕ → List ℕ
alone none = []
alone (some i) = i ∷ []

add_instance-last :
    (i : ℕ) (instances : List ℕ)
    → Below number_key i instances
    → add_instance (some i) instances ≡ instances ++ (i ∷ [])
unfolding add_instance
add_instance-last i instances small =
    rw (list_find_above number_key instances i small) (list_add_last number_key instances i small)

add_instance-nil : (instance : Option ℕ) → add_instance instance [] ≡ alone instance
unfolding add_instance
add_instance-nil none = refl
add_instance-nil (some i) = add_instance-last i [] tt

add_id-new :
    (id : ℕ) (instance : Option ℕ) (before : List ClientObject)
    → Below object_key id before
    → add_id (record { id = id; instance_id = instance }) before
      ≡ before ++ (object_of id (alone instance) ∷ [])
unfolding add_id
add_id-new id instance before below =
    rw (list_find_above object_key before id below, add_id, add_instance-nil instance)
      (list_add_last object_key before (object_of id (alone instance)) below)

add_id-again :
    (id i : ℕ) (instances : List ℕ) (before : List ClientObject)
    → Below object_key id before
    → Below number_key i instances
    → add_id (record { id = id; instance_id = some i }) (before ++ (object_of id instances ∷ []))
      ≡ before ++ (object_of id (instances ++ (i ∷ [])) ∷ [])
unfolding add_id
add_id-again id i instances before below small =
    rw
      (
        list_find_last object_key before (object_of id instances) below,
        add_id,
        add_instance-last i instances small,
      )
      (put_object_last id before instances (instances ++ (i ∷ [])) below)

collect-append :
    (es es' : List Entry) (objects : List ClientObject)
    → collect (es ++ es') objects ≡ collect es' (collect es objects)
unfolding collect
collect-append [] es' objects = refl
collect-append (e ∷ es) es' objects = collect-append es es' (add_id (named e) objects)

module _ (id : ℕ) (before : List ClientObject) (below : Below object_key id before) where
  collect-instances :
      (n : ℕ) (seen instances : List ℕ)
      → Below number_key n seen
      → RisesFrom number_key n instances
      → collect (instance_entries id instances) (before ++ (object_of id seen ∷ []))
        ≡ before ++ (object_of id (seen ++ instances) ∷ [])
  unfolding collect instance_entries
  collect-instances n seen [] small rises = rw (append-nil seen) refl
  collect-instances n seen (i ∷ instances) small (above, rises) =
      let small' = Below-mono number_key n i seen above small in
      let small'' =
        Below-snoc number_key (suc i) seen i
          (Below-mono number_key i (suc i) seen (omega arith) small') (omega arith) in
      ap (collect (instance_entries id instances)) (add_id-again id i seen before below small')
      ∙ collect-instances (suc i) (seen ++ (i ∷ [])) instances small'' rises
      ∙ ap (λ is. before ++ (object_of id is ∷ [])) (append_assoc seen (i ∷ []) instances)

  -- The entries of an object add up to it.
  collect-object :
      (instances : List ℕ)
      → Rises number_key instances
      → collect (object_entries id instances) before ≡ before ++ (object_of id instances ∷ [])
  unfolding collect object_entries instance_entries
  collect-object [] rises = add_id-new id none before below
  collect-object (i ∷ instances) (above, rises) =
      ap (collect (instance_entries id instances)) (add_id-new id (some i) before below)
      ∙ collect-instances (suc i) (i ∷ []) instances (omega arith) rises

module _ {S : Type 0} where
  -- An object as the server lists it.
  abbrev pub exposed : Object S → ClientObject
  exposed o = object_of o.obj_id o.instance_list

  -- Ids that rise, and do for each object.
  abbrev pub Ordered : List (Object S) → Type 0
  Ordered objects =
      Rises (λ o. o.obj_id) objects × All (λ o. Rises number_key o.instance_list) objects

  abbrev pub Small : List (Object S) → Type 0
  Small objects = All (λ o. (o.obj_id < 65535) × All (λ i. i < 65535) o.instance_list) objects

  collect-entries :
      (n : ℕ) (before : List ClientObject) (objects : List (Object S))
      → Below object_key n before
      → RisesFrom (λ o. o.obj_id) n objects
      → All (λ o. Rises number_key o.instance_list) objects
      → collect (entries objects) before ≡ before ++ map exposed objects
  unfolding collect entries
  collect-entries n before [] below rises each = sym (append-nil before)
  collect-entries n before (o ∷ objects) below (above, rises) (one, each) =
      let below' = Below-mono object_key n o.obj_id before above below in
      let below'' =
        Below-snoc object_key (suc o.obj_id) before (exposed o)
          (Below-mono object_key o.obj_id (suc o.obj_id) before (omega arith) below')
          (omega arith) in
      rw
        (
          collect-append (object_entries o.obj_id o.instance_list) (entries objects) before,
          collect-object o.obj_id before below' o.instance_list one,
        )
        (collect-entries (suc o.obj_id) (before ++ (exposed o ∷ [])) objects below'' rises each
          ∙ append_assoc before (exposed o ∷ []) (map exposed objects))

instances-Readable :
    (id : ℕ) (instances : List ℕ)
    → id < 65535
    → All (λ i. i < 65535) instances
    → All Readable (instance_entries id instances)
unfolding instance_entries
instances-Readable id [] small each = tt
instances-Readable id (i ∷ instances) small (one, each) =
    ((small, λ j same. ground arith), instances-Readable id instances small each)

object-Readable :
    (id : ℕ) (instances : List ℕ)
    → id < 65535
    → All (λ i. i < 65535) instances
    → All Readable (object_entries id instances)
unfolding object_entries
object-Readable id [] small each = ((small, λ i same. cc), tt)
object-Readable id (i ∷ instances) small each = instances-Readable id (i ∷ instances) small each

All-append : (es es' : List Entry) → All Readable es → All Readable es' → All Readable (es ++ es')
All-append [] es' each each' = each'
All-append (e ∷ es) es' (one, each) each' = (one, All-append es es' each each')

entries-Readable :
    {S : Type 0} (objects : List (Object S)) → Small objects → All Readable (entries objects)
unfolding entries
entries-Readable [] small = tt
entries-Readable (o ∷ objects) ((id, each), small) =
    All-append (object_entries o.obj_id o.instance_list) (entries objects)
      (object-Readable o.obj_id o.instance_list id each) (entries-Readable objects small)

-- A server reads of the payload that a client registers with, if it is not empty, the objects of
-- the client with their instances, where the ids of the objects, and of the instances of each, rise
-- and are below 65535.
pub decode_register_payload-get_register_payload :
    {S : Type 0} (objects : List (Object S)) (size : ℕ)
    → Ordered objects
    → Small objects
    → get_register_payload objects size ≢ []
    → decode_register_payload (get_register_payload objects size) ≡ map exposed objects
decode_register_payload-get_register_payload objects size (rises, each) small some_payload =
    let (e, es, listed, printed) = get_register_payload-entries objects size some_payload in
    let readable : All Readable (e ∷ es) = rw listed at (entries-Readable objects small) in
    rw printed (decode_register_payload-collect e es readable)
    ∙ ap (λ es. collect es []) (sym listed)
    ∙ collect-entries 0 [] objects tt rises each
