-- ===== src/Resources/Applications/Life.antt =====
-- tests/client/applications.c: the life of an application that runs, is killed, or dies.
use galileom2m.Prelude.{
  ℕ, zero, suc, ◌+◌, ◌<◌, ◌≡◌, ◌≢◌, Bool, false, Option, some, if-elim, ◌==◌, arith,
}
use galileom2m.Context.{ok, minus_one}
use galileom2m.Context.Preserve.{Returns, ok-Returns, bind-Returns, any-Returns}
use galileom2m.Resources.{Cell, word, Cells, update, load_word, store_word}
use galileom2m.Resources.Applications.{
  Application, nof_applications, running, error_state, application_at, exec_run, exec_kill,
  exec_check, declare_dead, update_application, update_loop, applications_update,
}

-- No pid shares its address with a state or an error code.
pub record Apart (layout : ℕ → Application) : Type 0 where
  pub from_state : (i j : ℕ) → (layout i).state ≢ (layout j).pid
  pub from_error : (i j : ℕ) → (layout i).error ≢ (layout j).pid

store_word-Returns :
    (m : Cells) (p w q : ℕ) (cell : Option Cell)
    → p ≢ q
    → m q ≡ cell
    → Returns (λ m'. m' q ≡ cell) (store_word m p w)
unfolding store_word
store_word-Returns m p w q cell apart same =
    any-Returns (λ m'. m' q ≡ cell) (load_word m p) (λ old. ok (update m p (word w)))
      (λ old. ok-Returns (λ m'. m' q ≡ cell) _ (ground (arith, same)))

module _ (alive : ℕ → Bool) (layout : ℕ → Application) (apart : Apart layout) (k : ℕ)
    (cell : Option Cell) where
  abbrev Same : Cells → Type 0
  Same m = m (layout k).pid ≡ cell

  declare_dead-Same : (i : ℕ) (m : Cells) → Same m → Returns Same (declare_dead (layout i) m)
  unfolding declare_dead
  declare_dead-Same i m same =
      bind-Returns Same Same (store_word m (layout i).state error_state) _
        (store_word-Returns m _ _ _ cell (apart.from_state i k) same)
        (λ m' same'. store_word-Returns m' _ _ _ cell (apart.from_error i k) same')

  update_application-Same :
      (i : ℕ) (m : Cells) → Same m → Returns Same (update_application alive layout i m)
  unfolding update_application
  update_application-Same i m same = any-Returns Same (load_word m (layout i).state) _ (λ state.
      if-elim (state == running) (Returns Same)
        (any-Returns Same (exec_check alive layout i m) _ (λ checked.
          if-elim checked (Returns Same) (ok-Returns Same m same) (declare_dead-Same i m same)))
        (ok-Returns Same m same))

  update_loop-Same :
      (left i : ℕ) (m : Cells) → Same m → Returns Same (update_loop alive layout i left m)
  unfolding update_loop
  update_loop-Same zero i m same = ok-Returns Same m same
  update_loop-Same (suc left) i m same =
      bind-Returns Same Same (update_application alive layout i m) _
        (update_application-Same i m same) (λ m' same'. update_loop-Same left (i + 1) m' same')

-- Where no pid shares its address with a state or an error code: after a periodic check, whatever it
-- found out about the processes, an application that had a pid cannot be run, and if its process
-- cannot be killed any more it cannot be freed either. The pid of a process that died is kept.
pub applications_update-exec_run :
    (alive : ℕ → Bool) (layout : ℕ → Application) (i pid : ℕ) (m m' : Cells) (allocated : Bool)
    (forked : ℕ)
    → Apart layout
    → i < nof_applications
    → m (layout i).pid ≡ some (word pid)
    → pid ≢ 0
    → applications_update alive layout m ≡ ok m'
    → (exec_run allocated forked layout i m' ≡ ok (minus_one, m'))
      × (exec_kill false layout i m' ≡ ok (minus_one, m'))
unfolding applications_update exec_run exec_kill application_at load_word
applications_update-exec_run alive layout i pid m m' allocated forked apart small has_pid some_pid
      updated =
    let kept =
      (update_loop-Same alive layout apart i (some (word pid)) nof_applications 0 m
          has_pid).returned
        m' updated in
    (ground (arith, kept), ground (arith, kept))
