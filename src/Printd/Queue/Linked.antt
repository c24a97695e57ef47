-- ===== src/Printd/Queue/Linked.antt =====
-- Lists of jobs on the heap of apue.3e/printer/printd.c, linked both ways.
use play_apue.Prelude.{
  ℕ, ◌≡◌, ◌≢◌, refl, sym, ◌∙◌, Option, none, some, List, [], ◌∷◌, ◌++◌, arith, All,
}
use play_apue.Printd.{Printreq}
use play_apue.Printd.Queue.{Job, Jobs, store, set_next, set_prev}

-- A job on the list: its address, its number and its request.
abbrev pub Entry : Type 0
Entry = ℕ × ℕ × Printreq

abbrev pub Apart : ℕ → List Entry → Type 0
Apart a = All (λ (x : Entry). x.0 ≢ a)

abbrev pub AllApart : List Entry → Type 0
AllApart [] = Unit
AllApart (x ∷ xs) = Apart x.0 xs × AllApart xs

abbrev pub head_of : List Entry → Option ℕ → Option ℕ
head_of [] q = q
head_of (x ∷ xs) q = some x.0

abbrev pub tail_of : Option ℕ → List Entry → Option ℕ
tail_of p [] = p
tail_of p (x ∷ xs) = tail_of (some x.0) xs

-- The node of an entry between two pointers.
abbrev pub node : Option ℕ → Entry → Option ℕ → Job
node p x q = record { next = q; prev = p; jobid = x.1; req = x.2 }

-- The heap holds the entries, linked both ways, from a pointer to a pointer.
abbrev pub Linked : (ℕ → Option Job) → Option ℕ → List Entry → Option ℕ → Type 0
Linked f p [] q = Unit
Linked f p (x ∷ xs) q = (f x.0 ≡ some (node p x (head_of xs q))) × Linked f (some x.0) xs q

-- The list of jobs in order.
pub record IsQueue (s : Jobs) (xs : List Entry) : Type 0 where
  pub linked : Linked s.cell none xs none
  pub at_head : s.jobhead ≡ head_of xs none
  pub at_tail : s.jobtail ≡ tail_of none xs
  pub apart : AllApart xs

pub store_same : (f : ℕ → Option Job) (a : ℕ) (j : Job) → store f a j a ≡ some j
store_same f a j = ground arith

pub store_other : (f : ℕ → Option Job) (a b : ℕ) (j : Job) → b ≢ a → store f a j b ≡ f b
store_other f a b j h = ground arith

pub Linked-store :
    (f : ℕ → Option Job) (a : ℕ) (j : Job) (p : Option ℕ) (xs : List Entry) (q : Option ℕ)
    → Apart a xs
    → Linked f p xs q
    → Linked (store f a j) p xs q
Linked-store f a j p [] q h l = tt
Linked-store f a j p (x ∷ xs) q h l =
    (store_other f a x.0 j h.0 ∙ l.0, Linked-store f a j (some x.0) xs q h.1 l.1)

pub Linked-append :
    (f : ℕ → Option Job) (p : Option ℕ) (xs ys : List Entry) (q : Option ℕ)
    → Linked f p xs (head_of ys q)
    → Linked f (tail_of p xs) ys q
    → Linked f p (xs ++ ys) q
Linked-append f p [] ys q l m = m
Linked-append f p (x ∷ []) ys q l m = (l.0, m)
Linked-append f p (x ∷ y ∷ xs) ys q l m = (l.0, Linked-append f (some x.0) (y ∷ xs) ys q l.1 m)

pub Linked-split :
    (f : ℕ → Option Job) (p : Option ℕ) (xs ys : List Entry) (q : Option ℕ)
    → Linked f p (xs ++ ys) q
    → Linked f p xs (head_of ys q) × Linked f (tail_of p xs) ys q
Linked-split f p [] ys q l = (tt, l)
Linked-split f p (x ∷ []) ys q l = ((l.0, tt), l.1)
Linked-split f p (x ∷ y ∷ xs) ys q l =
    let (l', m) = Linked-split f (some x.0) (y ∷ xs) ys q l.1 in ((l.0, l'), m)

pub tail_of-append :
    (p : Option ℕ) (xs ys : List Entry) → tail_of p (xs ++ ys) ≡ tail_of (tail_of p xs) ys
tail_of-append p [] ys = refl
tail_of-append p (x ∷ xs) ys = tail_of-append (some x.0) xs ys

pub head_of-append :
    (xs ys : List Entry) (q : Option ℕ) → head_of (xs ++ ys) q ≡ head_of xs (head_of ys q)
head_of-append [] ys q = refl
head_of-append (x ∷ xs) ys q = refl

pub Apart-append : (a : ℕ) (xs ys : List Entry) → Apart a (xs ++ ys) → Apart a xs × Apart a ys
Apart-append a [] ys h = (tt, h)
Apart-append a (x ∷ xs) ys h = let (l, m) = Apart-append a xs ys h.1 in ((h.0, l), m)

-- The last node of a list that is not empty, with its `next` changed.
pub last_linked :
    (f : ℕ → Option Job) (p : Option ℕ) (x : Entry) (xs : List Entry) (q q' : Option ℕ)
    → AllApart (x ∷ xs)
    → Linked f p (x ∷ xs) q
    → (t : ℕ) × (j : Job) × (tail_of p (x ∷ xs) ≡ some t)
      × (f t ≡ some j)
      × Linked (store f t (record j { next = q' })) p (x ∷ xs) q'
      × ((a : ℕ) → Apart a (x ∷ xs) → t ≢ a)
last_linked f p x [] q q' h l =
    (x.0, node p x q, refl, l.0, (store_same f x.0 (node p x q'), tt), λ a k. k.0)
last_linked f p x (y ∷ xs) q q' h l =
    let (t, j, e, g, m, far) = last_linked f (some x.0) y xs q q' h.1 l.1 in
    (
      t,
      j,
      e,
      g,
      (store_other f t x.0 (record j { next = q' }) (λ z. far x.0 h.0 (sym z)) ∙ l.0, m),
      λ a k. far a k.1,
    )

pub Apart-snoc :
    (a : ℕ) (xs : List Entry) (y : Entry) → Apart a xs → y.0 ≢ a → Apart a (xs ++ y ∷ [])
Apart-snoc a [] y h k = (k, tt)
Apart-snoc a (x ∷ xs) y h k = (h.0, Apart-snoc a xs y h.1 k)

pub AllApart-snoc :
    (xs : List Entry) (y : Entry) → AllApart xs → Apart y.0 xs → AllApart (xs ++ y ∷ [])
AllApart-snoc [] y h k = (tt, tt)
AllApart-snoc (x ∷ xs) y h k =
    (Apart-snoc x.0 xs y h.0 (λ e. k.0 (sym e)), AllApart-snoc xs y h.1 k.1)

pub set_next_lem :
    (p : ℕ) (v : Option ℕ) (s : Jobs) (j : Job)
    → s.cell p ≡ some j
    → set_next p v s ≡ some (record s { cell = store s.cell p (record j { next = v }) })
unfolding set_next
set_next_lem p v s j e = rw (e, set_next) refl

pub set_prev_lem :
    (p : ℕ) (v : Option ℕ) (s : Jobs) (j : Job)
    → s.cell p ≡ some j
    → set_prev p v s ≡ some (record s { cell = store s.cell p (record j { prev = v }) })
unfolding set_prev
set_prev_lem p v s j e = rw (e, set_prev) refl
