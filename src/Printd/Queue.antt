-- ===== src/Printd/Queue.antt =====
-- apue.3e/printer/printd.c: the doubly linked list of print jobs, on a heap.
--
-- A job is found by its address; a pointer is null or an address. The lists of the source are changed
-- with `joblock` held, so that an operation is one step. `none` is a fault: a null pointer or a dangling
-- one is followed.
pub mod Linked
pub mod Apart
pub mod Refine
pub mod Remove
use play_apue.Printd.{Printreq}
use play_apue.Prelude.{ℕ, ◌+◌, Option, none, some, if◌then◌else◌, ◌==◌, Bool, true, false, leb}

-- `struct job`
pub record Job : Type 0 where
  pub next : Option ℕ
  pub prev : Option ℕ
  pub jobid : ℕ
  pub req : Printreq

-- The heap with the variables `jobhead` and `jobtail`.
pub record Jobs : Type 0 where
  pub cell : ℕ → Option Job
  pub jobhead : Option ℕ
  pub jobtail : Option ℕ

abbrev pub store : (ℕ → Option Job) → ℕ → Job → ℕ → Option Job
store f p j q = if p == q then some j else f q

-- `p->next = v` and `p->prev = v`
pub set_next : ℕ → Option ℕ → Jobs → Option (Jobs)
set_next p v s = elim (s.cell p) [
  | none ↦ none
  | some j ↦ some (record s { cell = store s.cell p (record j { next = v }) })
]

pub set_prev : ℕ → Option ℕ → Jobs → Option (Jobs)
set_prev p v s = elim (s.cell p) [
  | none ↦ none
  | some j ↦ some (record s { cell = store s.cell p (record j { prev = v }) })
]

-- The node behind the old tail, or the head; then the tail.
pub link_tail : ℕ → Option ℕ → Jobs → Option (Jobs)
link_tail jp none s = some (record s { jobhead = some jp; jobtail = some jp })
link_tail jp (some tail) s = elim (set_next tail (some jp) s) [
  | none ↦ none
  | some s' ↦ some (record s' { jobtail = some jp })
]

-- `malloc` returned `jp`.
pub add_job : ℕ → Printreq → ℕ → Jobs → Option (Jobs)
add_job jp req jobid s = link_tail jp s.jobtail (record s {
  cell = store s.cell jp (record { next = none; prev = s.jobtail; jobid = jobid; req = req });
})

pub link_head : ℕ → Option ℕ → Jobs → Option (Jobs)
link_head jp none s = some (record s { jobtail = some jp; jobhead = some jp })
link_head jp (some head) s = elim (set_prev head (some jp) s) [
  | none ↦ none
  | some s' ↦ some (record s' { jobhead = some jp })
]

pub replace_job : ℕ → Jobs → Option (Jobs)
replace_job jp s = elim (s.cell jp) [
  | none ↦ none
  | some j ↦
      link_head jp s.jobhead
        (record s { cell = store s.cell jp (record j { prev = none; next = s.jobhead }) })
]

-- The two halves of `remove_job`, by the pointers of the target.
pub unlink_next : Option ℕ → Option ℕ → Jobs → Option (Jobs)
unlink_next none prev s = some (record s { jobtail = prev })
unlink_next (some next) prev s = set_prev next prev s

pub unlink_prev : Option ℕ → Option ℕ → Jobs → Option (Jobs)
unlink_prev next none s = some (record s { jobhead = next })
unlink_prev next (some prev) s = set_next prev next s

pub remove_job : ℕ → Jobs → Option (Jobs)
remove_job target s = elim (s.cell target) [
  | none ↦ none
  | some j ↦ elim (unlink_next j.next j.prev s) [
    | none ↦ none
    | some s' ↦ elim (s'.cell target) [ none ↦ none | some j' ↦ unlink_prev j'.next j'.prev s' ]
  ]
]
