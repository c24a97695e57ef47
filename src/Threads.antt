-- ===== src/Threads.antt =====
-- apue.3e/threads/mutex3.c: the counted objects of a hash table, on a heap.
--
-- An object is found by its address; a pointer is null or an address. Each function changes the table
-- with `hashlock` held, so that it is one step; the lock of an object is not modelled. An `int` is a
-- 32-bit word. `none` is a fault, a null or a dangling pointer that is followed, or a lack of fuel.
mod Chain
mod Find
mod Release
mod Calls
mod Examples
use play_apue.Prelude.{
  ℕ, zero, suc, ◌+◌, ◌-◌, ◌%◌, ◌^◌, Bool, true, false, Option, none, some, ltb, ◌==◌, if◌then◌else◌,
}

abbrev pub nhash : ℕ
nhash = 29

-- The conversion of an `int` to `unsigned long` extends its sign.
abbrev pub unsigned_long : ℕ → ℕ
unsigned_long id = if ltb id (2 ^ 31) then id else id + (2 ^ 64 - 2 ^ 32)

pub hash : ℕ → ℕ
hash id = unsigned_long id % nhash

-- `struct foo`
pub record Foo : Type 0 where
  pub f_count : ℕ
  pub f_id : ℕ
  pub f_next : Option ℕ

-- The heap and the array `fh`.
pub record Table : Type 0 where
  pub cell : ℕ → Option Foo
  pub fh : ℕ → Option ℕ

-- A function with a new value at one place.
abbrev pub at {ℓ} : {A : Type ℓ} → ℕ → A → (ℕ → A) → ℕ → A
at p a f q = if p == q then a else f q

-- `*fp = foo`, `fh[idx] = p` and `free(fp)`.
abbrev pub set_foo : ℕ → Foo → Table → Table
set_foo fp foo s = record s { cell = at fp (some foo) s.cell }

abbrev pub set_head : ℕ → Option ℕ → Table → Table
set_head idx p s = record s { fh = at idx p s.fh }

abbrev pub free : ℕ → Table → Table
free fp s = record s { cell = at fp none s.cell }

-- With what `malloc` returns, and whether the lock can be initialised.
pub foo_alloc : Option ℕ → Bool → ℕ → Table → Option ℕ × Table
foo_alloc none init id s = (none, s)
foo_alloc (some fp) false id s = (none, s)
foo_alloc (some fp) true id s = (
  some fp,
  set_head (hash id) (some fp)
      (set_foo fp (record { f_count = 1; f_id = id; f_next = s.fh (hash id) }) s),
)

-- `f_count++` and `--f_count`
abbrev pub count_up : Foo → Foo
count_up foo = record foo { f_count = (foo.f_count + 1) % 2 ^ 32 }

abbrev pub count_down : Foo → Foo
count_down foo = record foo { f_count = (foo.f_count + (2 ^ 32 - 1)) % 2 ^ 32 }

pub foo_hold : ℕ → Table → Option Table
foo_hold fp s = elim (s.cell fp) [ none ↦ none | some foo ↦ some (set_foo fp (count_up foo) s) ]

-- The loop over the chain, with fuel.
pub find_in_chain : ℕ → ℕ → Option ℕ → Table → Option (Option ℕ × Table)
find_in_chain fuel id none s = some (none, s)
find_in_chain zero id (some fp) s = none
find_in_chain (suc fuel) id (some fp) s = elim (s.cell fp) [
  | none ↦ none
  | some foo ↦
      let rest = find_in_chain fuel id foo.f_next s in
      if foo.f_id == id then some (some fp, set_foo fp (count_up foo) s) else rest
]

pub foo_find : ℕ → ℕ → Table → Option (Option ℕ × Table)
foo_find fuel id s = find_in_chain fuel id (s.fh (hash id)) s

abbrev pub points : Option ℕ → ℕ → Bool
points none fp = false
points (some p) fp = p == fp

-- `while (tfp->f_next != fp)` and the change of the pointer, with fuel.
pub unlink_loop : ℕ → ℕ → Option ℕ → Option ℕ → Table → Option Table
unlink_loop zero fp next tfp s = none
unlink_loop (suc fuel) fp next none s = none
unlink_loop (suc fuel) fp next (some tfp) s = elim (s.cell tfp) [
  | none ↦ none
  | some foo ↦
      let rest = unlink_loop fuel fp next foo.f_next s in
      if points foo.f_next fp then some (set_foo tfp (record foo { f_next = next }) s) else rest
]

pub unlink_foo : ℕ → ℕ → Option ℕ → ℕ → Table → Option Table
unlink_foo fuel fp next idx s =
    if points (s.fh idx) fp
    then some (set_head idx next s)
    else unlink_loop fuel fp next (s.fh idx) s

-- With the object after the count went down.
pub release : ℕ → ℕ → Foo → Table → Option Table
release fuel fp foo s =
    if foo.f_count == 0
    then elim (unlink_foo fuel fp foo.f_next (hash foo.f_id) (set_foo fp foo s)) [
      | none ↦ none
      | some s' ↦ some (free fp s')
    ]
    else some (set_foo fp foo s)

pub foo_rele : ℕ → ℕ → Table → Option Table
foo_rele fuel fp s = elim (s.cell fp) [
  | none ↦ none
  | some foo ↦ release fuel fp (count_down foo) s
]
