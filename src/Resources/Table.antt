-- ===== src/Resources/Table.antt =====
-- tests/client/object.c: the table of resources as a map from ids to resources.
use Prim.Native.String.{String}
use mathlib.Core.Path.{subst}
use galileom2m.Prelude.{
  ℕ, zero, suc, ◌+◌, ◌^◌, ◌≡◌, ◌∙◌, ◌≢◌, ◌⊎◌, inl, inr, refl, sym, true, false, not, Bool-cases,
  Option, none, some, is_some, Option-cases, List, [], ◌∷◌, arith, get_elem?, set, ◌==◌, leb, ◌&&◌,
  ◌||◌, if◌then◌else◌,
}
use galileom2m.Context.{Run, minus_one}
use galileom2m.Resources.{ResAccType, ResType, Cells, Resource, ObjectConfig, find_id}
use galileom2m.Resources.Build.{place, described, add_resource}

-- Where the loop of `_objectAddResource` ends: at the first entry of the id, or at a free entry of a
-- table that does not have the id.
pub data Place (resources : List Resource) (id : ℕ) (i : ℕ) : Type 0 where
  first :
      (old : Resource)
      → get_elem? resources i ≡ some old
      → old.id ≡ id
      → ((new : Resource) → new.id ≡ id → find_id (set resources i new) id ≡ some new)
      → Place resources id i
  free :
      (old : Resource)
      → get_elem? resources i ≡ some old
      → old.id ≡ minus_one
      → find_id resources id ≡ none
      → Place resources id i

-- What the loop says of the part of the table behind index `k`.
data Rest (resources : List Resource) (id k : ℕ) (free_idx : Option ℕ) (i : ℕ) : Type 0 where
  found : (n : ℕ) → i ≡ k + n → Place resources id n → Rest resources id k free_idx i
  earlier : free_idx ≡ some i → find_id resources id ≡ none → Rest resources id k free_idx i

-- `freeIdx` after a round.
next_free : Resource → ℕ → Option ℕ → Option ℕ
next_free x k free_idx = if x.id == minus_one && not (is_some free_idx) then some k else free_idx

Place-cons :
    (x : Resource) (resources : List Resource) (id n : ℕ)
    → (x.id == id) ≡ false
    → Place resources id n
    → Place (x ∷ resources) id (suc n)
unfolding find_id
Place-cons x resources id n there (first old at_n same found_after) =
    first old at_n same (λ new same_id. ground (arith, found_after new same_id))
Place-cons x resources id n there (free old at_n unused missing) =
    free old at_n unused (ground arith)

extend :
    (x : Resource) (resources : List Resource) (id k : ℕ) (free_idx : Option ℕ) {i : ℕ}
    → (x.id == id) ≡ false
    → Rest resources id (k + 1) (next_free x k free_idx) i
    → Rest (x ∷ resources) id k free_idx i
unfolding next_free find_id
extend x resources id k free_idx there (found n e p) =
    found (suc n) (omega arith) (Place-cons x resources id n there p)
extend x resources id k free_idx there (earlier e missing) =
    elim (Bool-cases (x.id == minus_one && not (is_some free_idx))) [
      | inl unused ↦ found 0 (ground arith) (free x refl (ground arith) (ground arith))
      | inr used ↦ earlier (ground arith) (ground arith)
    ]

place-Rest :
    (resources : List Resource) (id k : ℕ) (free_idx : Option ℕ) {i : ℕ}
    → place resources id k free_idx ≡ some i
    → Rest resources id k free_idx i
unfolding place find_id next_free
place-Rest [] id k free_idx e = earlier e refl
place-Rest (x ∷ resources) id k free_idx {i} e = elim (Bool-cases (x.id == id)) [
  | inl here ↦
      found 0 (ground arith) (first x refl (ground arith) (λ new same. ground (arith, same)))
  | inr there ↦
      extend x resources id k free_idx there
        (place-Rest resources id (k + 1) (next_free x k free_idx) (ground arith))
]

-- An entry of the id, or a free one, is overwritten: the other ids find what they found before.
find_id-set_other :
    (resources : List Resource) (i id j : ℕ) (old new : Resource)
    → get_elem? resources i ≡ some old
    → old.id ≢ j
    → new.id ≢ j
    → find_id (set resources i new) j ≡ find_id resources j
unfolding find_id
find_id-set_other [] i id j old new e was is = refl
find_id-set_other (x ∷ resources) zero id j old new e was is =
    let same : old ≡ x = cc in
    let differs : x.id ≢ j = subst (λ (y : Resource). y.id ≢ j) same was in ground arith
find_id-set_other (x ∷ resources) (suc i) id j old new e was is =
    ground (arith, find_id-set_other resources i id j old new e was is)

-- A free entry of a table without the id becomes the entry of the id.
find_id-set_free :
    (resources : List Resource) (i id : ℕ) (old new : Resource)
    → get_elem? resources i ≡ some old
    → find_id resources id ≡ none
    → new.id ≡ id
    → find_id (set resources i new) id ≡ some new
unfolding find_id
find_id-set_free [] i id old new e missing same = cc
find_id-set_free (x ∷ resources) zero id old new e missing same = ground arith
find_id-set_free (x ∷ resources) (suc i) id old new e missing same =
    elim (Bool-cases (x.id == id)) [
      | inl here ↦ absurd (ground arith)
      | inr there ↦ ground (arith, find_id-set_free resources i id old new e (ground arith) same)
    ]

-- The loop finds no place only in a table without the id and without a free entry.
place-none :
    (resources : List Resource) (id k : ℕ) (free_idx : Option ℕ)
    → place resources id k free_idx ≡ none
    → (free_idx ≡ none) × (find_id resources id ≡ none) × (find_id resources minus_one ≡ none)
unfolding place find_id
place-none [] id k free_idx e = (e, refl, refl)
place-none (x ∷ resources) id k free_idx e = ground (
  arith,
  place-none resources id (k + 1)
      (if x.id == minus_one && not (is_some free_idx) then some k else free_idx),
)

module _ (config : ObjectConfig) (id : ℕ) (desc : Option String) (type : ResType)
    (access : ResAccType) (exec_fnc : Option (ℕ → Cells → Run (ℕ × Cells))) where
  -- The table after an addition: the entry of the id, and the others.
  pub record Added (config' : ObjectConfig) : Type 0 where
    pub entry : Resource
    pub entered : find_id config'.resources id ≡ some entry
    pub same_desc : entry.desc ≡ desc
    pub same_type : entry.type ≡ type
    pub same_access : entry.access ≡ access
    pub same_exec : entry.exec_fnc ≡ exec_fnc
    pub one_value : entry.nof_values ≡ 1
    pub others :
        (j : ℕ) → j ≢ id → j ≢ minus_one → find_id config'.resources j ≡ find_id config.resources j

  Place-Added :
      (i : ℕ) (old : Resource)
      → get_elem? config.resources i ≡ some old
      → (old.id ≡ id) ⊎ (old.id ≡ minus_one)
      → find_id (set config.resources i (described old id desc type access exec_fnc)) id
        ≡ some (described old id desc type access exec_fnc)
      → Added (record config {
        resources = set config.resources i (described old id desc type access exec_fnc);
      })
  unfolding described
  Place-Added i old at_i which entered = record {
    entry = described old id desc type access exec_fnc;
    entered = entered;
    same_desc = refl;
    same_type = refl;
    same_access = refl;
    same_exec = refl;
    one_value = refl;
    others = λ j not_id not_free.
        find_id-set_other config.resources i id j old _ at_i
          (λ e. elim which [ inl a ↦ not_id (sym e ∙ a) | inr b ↦ not_free (sym e ∙ b) ])
          (λ e. not_id (sym e));
  }

  -- The table as it was, and why.
  pub record NotAdded (config' : ObjectConfig) : Type 0 where
    pub unchanged : config' ≡ config
    pub reason :
        (desc ≡ none)
        ⊎ ((leb (2 ^ 31) id ≡ true)
            ⊎ ((find_id config.resources id ≡ none) × (find_id config.resources minus_one ≡ none)))

  -- What an addition does to a table, with its outcome.
  abbrev pub Outcome : ObjectConfig × Option ℕ → Type 0
  Outcome (config', none) = NotAdded config'
  Outcome (config', some i) = Added config'

  placed-Outcome :
      (i : ℕ)
      → Place config.resources id i
      → Outcome (elim (get_elem? config.resources i) [
        | none ↦ (config, none)
        | some old ↦ (
          record config {
            resources = set config.resources i (described old id desc type access exec_fnc);
          },
          some i,
        )
      ])
  unfolding described
  placed-Outcome i (first old at_i same found_after) =
      rw at_i (Place-Added i old at_i (inl same) (found_after _ refl))
  placed-Outcome i (free old at_i unused missing) = rw at_i (
      Place-Added i old at_i (inr unused)
        (find_id-set_free config.resources i id old _ at_i missing refl))

  -- An addition enters a resource under its id with the description, type, access and function that
  -- were given and one value, and every other id but -1 finds what it found before; or it returns -1
  -- and leaves the table alone, only if there is no description, the id is negative, or the id is not
  -- in the table and no entry is free.
  pub add_resource-Outcome : Outcome (add_resource config id desc type access exec_fnc)
  unfolding add_resource
  add_resource-Outcome = elim (Bool-cases (not (is_some desc) || leb (2 ^ 31) id)) [
    | inl bad ↦ rw bad (record { unchanged = refl; reason = ground arith })
    | inr good ↦ elim (Option-cases (place config.resources id 0 none)) [
      | inl full ↦
          (let (unused, missing, no_free) = place-none config.resources id 0 none full in
            rw (good, full) (record { unchanged = refl; reason = inr (inr (missing, no_free)) }))
      | inr (i, lands) ↦
          (let placed = place-Rest config.resources id 0 none lands in
            rw (good, lands)
              (elim placed [
                | found n e p ↦
                    (let same : n ≡ i = omega arith in
                      placed-Outcome i (subst (Place config.resources id) same p))
                | earlier clash missing ↦ absurd (cc)
              ]))
    ]
  ]
