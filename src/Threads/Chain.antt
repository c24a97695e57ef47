-- ===== src/Threads/Chain.antt =====
-- The chains of the hash table of apue.3e/threads/mutex3.c.
use play_apue.Prelude.{
  ℕ, ◌<◌, ◌^◌, ◌≡◌, ◌≢◌, refl, ap, sym, ◌∙◌, Option, none, some, List, [], ◌∷◌, ◌++◌, arith, All,
  All-split,
}
use play_apue.Threads.{Foo, Table, at, hash}

-- An object of a chain: its address, its identifier and its count.
abbrev pub Entry : Type 0
Entry = ℕ × ℕ × ℕ

abbrev pub head_of : List Entry → Option ℕ → Option ℕ
head_of [] q = q
head_of (x ∷ xs) q = some x.0

abbrev pub foo_of : Entry → Option ℕ → Foo
foo_of x q = record { f_count = x.2; f_id = x.1; f_next = q }

abbrev pub Apart : ℕ → List Entry → Type 0
Apart a = All (λ (x : Entry). x.0 ≢ a)

abbrev pub AllApart : List Entry → Type 0
AllApart [] = Unit
AllApart (x ∷ xs) = Apart x.0 xs × AllApart xs

-- The heap holds the objects, each with a pointer to the next one, up to a pointer.
abbrev pub Chained : (ℕ → Option Foo) → List Entry → Option ℕ → Type 0
Chained f [] q = Unit
Chained f (x ∷ xs) q = (f x.0 ≡ some (foo_of x (head_of xs q))) × Chained f xs q

-- A chain of the table: its objects are apart, belong to it by their hash and are all held.
pub record Bucket (f : ℕ → Option Foo) (i : ℕ) (p : Option ℕ) (xs : List Entry) : Type 0 where
  pub starts : p ≡ head_of xs none
  pub chained : Chained f xs none
  pub apart : AllApart xs
  pub hashed : All (λ (x : Entry). hash x.1 ≡ i) xs
  pub held : All (λ (x : Entry). (0 < x.2) × (x.2 < 2 ^ 32)) xs

abbrev pub IsTable : Table → (ℕ → List Entry) → Type 0
IsTable s t = (i : ℕ) → Bucket s.cell i (s.fh i) (t i)

pub at_same {ℓ} : {A : Type ℓ} (p : ℕ) (a : A) (f : ℕ → A) → at p a f p ≡ a
at_same p a f = ground arith

pub at_other {ℓ} : {A : Type ℓ} (p q : ℕ) (a : A) (f : ℕ → A) → q ≢ p → at p a f q ≡ f q
at_other p q a f h = ground arith

pub Chained-at :
    (f : ℕ → Option Foo) (a : ℕ) (v : Option Foo) (xs : List Entry) (q : Option ℕ)
    → Apart a xs
    → Chained f xs q
    → Chained (at a v f) xs q
Chained-at f a v [] q h l = tt
Chained-at f a v (x ∷ xs) q h l = (at_other a x.0 v f h.0 ∙ l.0, Chained-at f a v xs q h.1 l.1)

pub Chained-append :
    (f : ℕ → Option Foo) (xs ys : List Entry) (q : Option ℕ)
    → Chained f xs (head_of ys q)
    → Chained f ys q
    → Chained f (xs ++ ys) q
Chained-append f [] ys q l m = m
Chained-append f (x ∷ []) ys q l m = (l.0, m)
Chained-append f (x ∷ y ∷ xs) ys q l m = (l.0, Chained-append f (y ∷ xs) ys q l.1 m)

pub Chained-split :
    (f : ℕ → Option Foo) (xs ys : List Entry) (q : Option ℕ)
    → Chained f (xs ++ ys) q
    → Chained f xs (head_of ys q) × Chained f ys q
Chained-split f [] ys q l = (tt, l)
Chained-split f (x ∷ []) ys q l = ((l.0, tt), l.1)
Chained-split f (x ∷ y ∷ xs) ys q l =
    let (l', m) = Chained-split f (y ∷ xs) ys q l.1 in ((l.0, l'), m)

pub head_of-append :
    (xs ys : List Entry) (q : Option ℕ) → head_of (xs ++ ys) q ≡ head_of xs (head_of ys q)
head_of-append [] ys q = refl
head_of-append (x ∷ xs) ys q = refl

-- An object of one chain, or an address that is free, is apart from another chain.
pub Apart-hash :
    (f : ℕ → Option Foo) (i a : ℕ) (foo : Foo) (xs : List Entry) (q : Option ℕ)
    → f a ≡ some foo
    → hash foo.f_id ≢ i
    → Chained f xs q
    → All (λ (x : Entry). hash x.1 ≡ i) xs
    → Apart a xs
Apart-hash f i a foo [] q e h l m = tt
Apart-hash f i a foo (x ∷ xs) q e h l m = (
  λ z.
      let same : foo_of x (head_of xs q) ≡ foo = cc (sym l.0 ∙ ap f z ∙ e) in
      h (ap (λ (g : Foo). hash g.f_id) (sym same) ∙ m.0),
  Apart-hash f i a foo xs q e h l.1 m.1,
)

pub Apart-free :
    (f : ℕ → Option Foo) (a : ℕ) (xs : List Entry) (q : Option ℕ)
    → f a ≡ none
    → Chained f xs q
    → Apart a xs
Apart-free f a [] q e l = tt
Apart-free f a (x ∷ xs) q e l = (λ z. cc (sym l.0 ∙ ap f z ∙ e), Apart-free f a xs q e l.1)

pub Bucket-at :
    (f : ℕ → Option Foo) (a : ℕ) (v : Option Foo) (i : ℕ) (p : Option ℕ) (xs : List Entry)
    → Apart a xs
    → Bucket f i p xs
    → Bucket (at a v f) i p xs
Bucket-at f a v i p xs h b = record {
  starts = b.starts;
  chained = Chained-at f a v xs none h b.chained;
  apart = b.apart;
  hashed = b.hashed;
  held = b.held;
}

-- What is around an object of a chain.
pub AllApart-around :
    (xs : List Entry) (e : Entry) (ys : List Entry)
    → AllApart (xs ++ e ∷ ys)
    → Apart e.0 xs × Apart e.0 ys
AllApart-around [] e ys h = (tt, h.0)
AllApart-around (x ∷ xs) e ys h =
    let (l, m) = AllApart-around xs e ys h.1 in
    let (u, v) = All-split (λ (y : Entry). y.0 ≢ x.0) xs (e ∷ ys) h.0 in ((λ z. v.0 (sym z), l), m)
