-- ===== src/Printd/Queue/Apart.antt =====
-- The parts of a list of jobs of apue.3e/printer/printd.c that lie apart.
use play_apue.Prelude.{ℕ, ◌≡◌, ◌≢◌, sym, ◌∙◌, Option, some, List, [], ◌∷◌, ◌++◌, All}
use play_apue.Printd.Queue.{Job}
use play_apue.Printd.Queue.Linked.{AllApart, Apart, Apart-append, Entry, Linked}

pub Linked-frame :
    (f g : ℕ → Option Job) (p : Option ℕ) (xs : List Entry) (q : Option ℕ)
    → All (λ (x : Entry). g x.0 ≡ f x.0) xs
    → Linked f p xs q
    → Linked g p xs q
Linked-frame f g p [] q h l = tt
Linked-frame f g p (x ∷ xs) q h l = (h.0 ∙ l.0, Linked-frame f g (some x.0) xs q h.1 l.1)

pub All-map :
    (P Q : Entry → Type 0) (xs : List Entry) → ((x : Entry) → P x → Q x) → All P xs → All Q xs
All-map P Q [] f h = tt
All-map P Q (x ∷ xs) f h = (f x h.0, All-map P Q xs f h.1)

-- The two parts of a list, each entry of the one apart from the other.
pub AllApart-split :
    (xs ys : List Entry)
    → AllApart (xs ++ ys)
    → AllApart xs
      × AllApart ys
      × All (λ (x : Entry). Apart x.0 ys) xs
      × All (λ (y : Entry). Apart y.0 xs) ys
AllApart-split [] ys h =
    (tt, h, tt, All-map (λ _. Unit {0}) (λ _. Unit {0}) ys (λ _ u. u) (all_unit ys))
  where
    all_unit : (ys : List Entry) → All (λ _. Unit {0}) ys
    all_unit [] = tt
    all_unit (y ∷ ys) = (tt, all_unit ys)
AllApart-split (x ∷ xs) ys h =
    let (a, b, c, d) = AllApart-split xs ys h.1 in
    let (l, r) = Apart-append x.0 xs ys h.0 in ((l, a), b, (r, c), joined x.0 ys r d)
  where
    joined :
        (a : ℕ) (zs : List Entry)
        → Apart a zs
        → All (λ (y : Entry). Apart y.0 xs) zs
        → All (λ (y : Entry). (a ≢ y.0) × Apart y.0 xs) zs
    joined a [] h k = tt
    joined a (z ∷ zs) h k = ((λ e. h.0 (sym e), k.0), joined a zs h.1 k.1)

pub AllApart-drop :
    (xs : List Entry) (x : Entry) (ys : List Entry) → AllApart (xs ++ x ∷ ys) → AllApart (xs ++ ys)
AllApart-drop [] x ys h = h.1
AllApart-drop (z ∷ xs) x ys h = (Apart-drop z.0 xs h.0, AllApart-drop xs x ys h.1)
  where
    Apart-drop : (a : ℕ) (zs : List Entry) → Apart a (zs ++ x ∷ ys) → Apart a (zs ++ ys)
    Apart-drop a [] h = h.1
    Apart-drop a (z ∷ zs) h = (h.0, Apart-drop a zs h.1)
