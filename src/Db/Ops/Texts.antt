-- ===== src/Db/Ops/Texts.antt =====
-- The texts of a chain of apue.3e/db/db.c of which one record is taken off.

use play_apue.Prelude.{
  ℕ, ◌+◌, ◌≡◌, refl, ap, false, List, [], ◌∷◌, ◌++◌, some, arith, Bytes, length, bytes_eq,
  if◌then◌else◌,
}
use play_apue.Db.Record.Index.{IndexRecord}
use play_apue.Db.Record.Data.{DataAt}
use play_apue.Db.Ops.Fetch.{Texts, find_text}
use play_apue.Db.Ops.Relink.{relinked}
use play_apue.Db.Ops.Delete.{LacksKey}

pub Texts-remove :
    (dat : Bytes) (xs : List IndexRecord) (r : IndexRecord) (zs : List IndexRecord)
    (us : List Bytes) (t : Bytes) (vs : List Bytes)
    → length us ≡ length xs
    → Texts dat (xs ++ r ∷ zs) (us ++ t ∷ vs)
    → Texts dat (xs ++ zs) (us ++ vs) × DataAt dat r.datoff t × (r.datlen ≡ length t + 1)
Texts-remove dat [] r zs [] t vs n (at, e, h) = (h, at, e)
Texts-remove dat [] r zs (u ∷ us) t vs n h = absurd (omega arith)
Texts-remove dat (x ∷ xs) r zs [] t vs n h = absurd (omega arith)
Texts-remove dat (x ∷ xs) r zs (u ∷ us) t vs n (at, e, h) =
    let (a, b, n') = Texts-remove dat xs r zs us t vs (omega arith) h in ((at, e, a), b, n')

-- The texts and the keys do not depend on the pointers.
pub Texts-relinked :
    (dat : Bytes) (xs : List IndexRecord) (p : ℕ) (zs : List IndexRecord) (ts : List Bytes)
    → Texts dat (xs ++ zs) ts
    → Texts dat (relinked xs p ++ zs) ts
Texts-relinked dat [] p zs ts h = h
Texts-relinked dat (x ∷ []) p zs [] h = h
Texts-relinked dat (x ∷ []) p zs (t ∷ ts) h = h
Texts-relinked dat (x ∷ y ∷ xs) p zs [] h = h
Texts-relinked dat (x ∷ y ∷ xs) p zs (t ∷ ts) (at, e, h) =
    (at, e, Texts-relinked dat (y ∷ xs) p zs ts h)

pub find_text-relinked :
    (k : Bytes) (xs : List IndexRecord) (p : ℕ) (zs : List IndexRecord) (ts : List Bytes)
    → find_text k (relinked xs p ++ zs) ts ≡ find_text k (xs ++ zs) ts
find_text-relinked k [] p zs ts = refl
find_text-relinked k (x ∷ []) p zs [] = refl
find_text-relinked k (x ∷ []) p zs (t ∷ ts) = refl
find_text-relinked k (x ∷ y ∷ xs) p zs [] = refl
find_text-relinked k (x ∷ y ∷ xs) p zs (t ∷ ts) =
    ap (λ o. if bytes_eq x.key k then some t else o) (find_text-relinked k (y ∷ xs) p zs ts)

-- Behind records without the key, the search goes on in the rest.
pub find_text_behind :
    (k : Bytes) (xs zs : List IndexRecord) (us vs : List Bytes)
    → length us ≡ length xs
    → LacksKey k xs
    → find_text k (xs ++ zs) (us ++ vs) ≡ find_text k zs vs
find_text_behind k [] zs [] vs n h = refl
find_text_behind k [] zs (u ∷ us) vs n h = absurd (omega arith)
find_text_behind k (x ∷ xs) zs [] vs n h = absurd (omega arith)
find_text_behind k (x ∷ xs) zs (u ∷ us) vs n (h, hs) =
    rw h (find_text_behind k xs zs us vs (omega arith) hs)

pub find_text-remove :
    (k : Bytes) (xs : List IndexRecord) (r : IndexRecord) (zs : List IndexRecord) (us : List Bytes)
    (t : Bytes) (vs : List Bytes)
    → length us ≡ length xs
    → bytes_eq r.key k ≡ false
    → find_text k (xs ++ zs) (us ++ vs) ≡ find_text k (xs ++ r ∷ zs) (us ++ t ∷ vs)
find_text-remove k [] r zs [] t vs n h = rw h refl
find_text-remove k [] r zs (u ∷ us) t vs n h = absurd (omega arith)
find_text-remove k (x ∷ xs) r zs [] t vs n h = absurd (omega arith)
find_text-remove k (x ∷ xs) r zs (u ∷ us) t vs n h =
    ap (λ o. if bytes_eq x.key k then some u else o)
      (find_text-remove k xs r zs us t vs (omega arith) h)
