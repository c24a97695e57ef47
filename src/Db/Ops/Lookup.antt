-- ===== src/Db/Ops/Lookup.antt =====
-- Lookup after insertion in apue.3e/db/db.c: what `db_fetch` returns after a `db_store` that appends.
use play_apue.Prelude.{
  ℕ, ◌+◌, ◌*◌, ◌≤◌, ◌≡◌, ◌≢◌, refl, ap, sym, ◌∙◌, true, false, List, ◌∷◌, none, some, arith, Bytes,
  length, Lacks, inl, inr, bytes_eq, bytes_eq_refl, bytes_eq_sound, Bool-cases, if◌then◌else◌, ◌⊎◌,
  split_le,
}
use mathlib.Core.Path.{subst, ap₂, subst₃}
use play_apue.Db.Storage.{write_at}
use play_apue.Db.Storage.Laws.{Apart}
use play_apue.Db.State.{Db, Counts, Which, done, without, bind_outcome, ◌>>=◌}
use play_apue.Db.Record.{ptr_sz, ptr_max}
use play_apue.Db.Record.Pointer.{ptr_at}
use play_apue.Db.Record.Index.{IndexRecord, IsSized}
use play_apue.Db.Record.Data.{line}
use play_apue.Db.Ops.{
  Flag, insert, replace, store, other, ok, db_store, store_locked, store_found, store_new,
  valid_length, db_fetch, db_find_and_lock, db_hash, free_off,
}
use play_apue.Db.Ops.Chain.{Chain}
use play_apue.Db.Ops.Search.{
  chainoff_of, find_record, is_some, scanned, begun, db_find_and_lock_lem, scanned-Found, Found,
}
use play_apue.Db.Ops.Fetch.{Bucket, find_text, db_fetch-eq-find_text}
use play_apue.Db.Ops.Free.{find_free}
use play_apue.Db.Ops.Insert.{linked, Behind, Bucket-linked, Bucket-linked_other}
use play_apue.Db.Ops.Append.{new_record, store_new_lem}

abbrev pub count_stor1 : Counts → Counts
count_stor1 c = record c { cnt_stor1 = c.cnt_stor1 + 1 }

-- The flags that allow a new record.
abbrev pub Adds : Flag → Type 0
Adds insert = Unit
Adds store = Unit
Adds _ = ⊥

-- The structure at the end of a store.
abbrev pub unlocked : Db → Db
unlocked s = record s { locks = without Which.idxfd s.chainoff 1 s.locks }

pub store_new_end :
    (key text : Bytes) (flag : Flag) (d s e : Db)
    → Adds flag
    → valid_length text ≡ true
    → db_find_and_lock key true d ≡ done false s
    → store_new key text s ≡ done tt e
    → db_store key text flag d ≡ done ok (unlocked e)
unfolding db_store store_locked store_found
store_new_end key text insert d s e a v h k =
    rw (v, bind_outcome) (rw (h, bind_outcome) (rw (k, bind_outcome)))
store_new_end key text store d s e a v h k =
    rw (v, bind_outcome) (rw (h, bind_outcome) (rw (k, bind_outcome)))
store_new_end key text replace d s e a v h k = absurd a
store_new_end key text other d s e a v h k = absurd a

-- The store appends the record: no record on the chain has the key, and none on the free list has
-- the sizes of the new one.
pub record CanAppend (d : Db) (key text : Bytes) (rs : List IndexRecord) (ts : List Bytes)
    (fs : List IndexRecord) : Type 0 where
  pub valid : valid_length text ≡ true
  pub plain : Lacks 0 text
  pub bucket : Bucket d.idxfd.bytes d.datfd.bytes (chainoff_of d key) rs ts
  pub behind : Behind (chainoff_of d key) rs
  pub absent : find_record key rs ≡ none
  pub free : Chain d.idxfd.bytes (ptr_at d.idxfd.bytes free_off) fs
  pub no_fit : find_free (length key) (length text + 1) free_off fs ≡ none
  pub sized :
      IsSized
        (new_record d.idxfd.bytes d.datfd.bytes key text (ptr_at d.idxfd.bytes (chainoff_of d key)))
  pub low : length d.idxfd.bytes ≤ ptr_max

abbrev pub added : Db → Bytes → Bytes → IndexRecord
added d key text =
    new_record d.idxfd.bytes d.datfd.bytes key text (ptr_at d.idxfd.bytes (chainoff_of d key))

-- The files after the store.
pub record Stores (key text : Bytes) (d e : Db) : Type 0 where
  pub new_idx : e.idxfd.bytes ≡ linked d.idxfd.bytes (chainoff_of d key) (added d key text)
  pub new_dat : e.datfd.bytes ≡ write_at (length d.datfd.bytes) (line text) d.datfd.bytes
  pub same_hashoff : e.hashoff ≡ d.hashoff
  pub same_nhash : e.nhash ≡ d.nhash
  pub counted : e.counts ≡ count_stor1 d.counts

-- A db_store (DB_INSERT or DB_STORE) of a key that no record of its chain has, where no free
-- record has the sizes of the new one and the files leave room for its fields, returns 0, writes
-- the text at the end of the data file and the index record at the end of the index file, points
-- the hash chain at it, changes no other byte, and counts cnt_stor1.
pub db_store-Stores :
    (key text : Bytes) (flag : Flag) (rs : List IndexRecord) (ts : List Bytes)
    (fs : List IndexRecord) (d : Db)
    → Adds flag
    → CanAppend d key text rs ts fs
    → (e : Db) × (db_store key text flag d ≡ done ok e) × Stores key text d e
db_store-Stores key text flag rs ts fs d a c =
    let s = scanned key rs (begun key true d) in
    let f : Found key rs (chainoff_of d key) (begun key true d) s =
      scanned-Found key rs (begun key true d) in
    let found : db_find_and_lock key true d ≡ done false s =
      db_find_and_lock_lem key true rs d c.bucket.fits c.bucket.small c.bucket.chain
      ∙ ap (λ o. done (is_some o) s) c.absent in
    let (e, h, w) =
      store_new_lem d.idxfd.bytes d.datfd.bytes key text (chainoff_of d key)
        (ptr_at d.idxfd.bytes (chainoff_of d key)) c.sized c.low c.bucket.small fs s f.same_idx
        (ap (λ x. x.bytes) f.same_dat) f.same_chainoff c.bucket.fits refl c.free c.no_fit in
    (
      unlocked (record e { counts = count_stor1 e.counts }),
      store_new_end key text flag d s _ a c.valid found h,
      record {
        new_idx = w.new_idx;
        new_dat = w.new_dat;
        same_hashoff = w.same_hashoff ∙ f.same_hashoff;
        same_nhash = w.same_nhash ∙ f.same_nhash;
        counted = ap count_stor1 (w.same_counts ∙ f.same_counts);
      },
    )

same_chain :
    (k key text : Bytes) (d e : Db) → Stores key text d e → chainoff_of e k ≡ chainoff_of d k
same_chain k key text d e w = ap₂ (λ n h. db_hash n k * ptr_sz + h) w.same_nhash w.same_hashoff

-- The chain of any key after the store.
fetch_after :
    (k key text : Bytes) (rs : List IndexRecord) (ts : List Bytes) (d e : Db)
    → Stores key text d e
    → Bucket
        (linked d.idxfd.bytes (chainoff_of d key) (added d key text))
        (write_at (length d.datfd.bytes) (line text) d.datfd.bytes)
        (chainoff_of d k)
        rs
        ts
    → (g : Db) × (db_fetch k e ≡ done (find_text k rs ts) g)
fetch_after k key text rs ts d e w b =
    let moved : Bucket e.idxfd.bytes e.datfd.bytes (chainoff_of e k) rs ts =
      subst₃ (λ i t o. Bucket i t o rs ts) (sym w.new_idx) (sym w.new_dat)
        (sym (same_chain k key text d e w)) b in
    let (g, h, _) = db_fetch-eq-find_text k rs ts e moved in (g, h)

-- Where the chain of a key holds index records that stand behind the pointer of the chain and
-- whose texts stand in the data file, the free list is a chain of index records, none of them with
-- the sizes of the new one, the key has no ':' and neither it nor the text a null byte, and the
-- text has 2 to 1024 bytes with its newline, and the files leave room for the fields of the new
-- record: after a db_store (DB_INSERT or DB_STORE) of the key, which no record of its chain has,
-- db_fetch of it returns the text that was stored.
pub db_fetch-db_store :
    (key text : Bytes) (flag : Flag) (rs : List IndexRecord) (ts : List Bytes)
    (fs : List IndexRecord) (d : Db)
    → Adds flag
    → CanAppend d key text rs ts fs
    → (g : Db) × ((db_store key text flag >>= λ _. db_fetch key) d ≡ done (some text) g)
db_fetch-db_store key text flag rs ts fs d a c =
    let (e, h, w) = db_store-Stores key text flag rs ts fs d a c in
    let (g, k) = fetch_after key key text (added d key text ∷ rs) (text ∷ ts) d e w (
      Bucket-linked d.idxfd.bytes d.datfd.bytes text (chainoff_of d key) (added d key text) c.sized
        refl refl refl c.low c.bucket.fits c.plain rs ts c.behind refl c.bucket) in
    (
      g,
      rw (h, bind_outcome)
          (k ∙ ap (λ b. done (if b then some text else find_text key rs ts) g) (bytes_eq_refl key)),
    )

chains-Apart :
    (k key : Bytes) (d : Db)
    → (chainoff_of d k ≡ chainoff_of d key)
      ⊎ Apart (chainoff_of d k) ptr_sz (chainoff_of d key) ptr_sz
chains-Apart k key d = by_order (db_hash d.nhash k) (db_hash d.nhash key)
  where
    by_order :
        (a b : ℕ)
        → (a * ptr_sz + d.hashoff ≡ b * ptr_sz + d.hashoff)
          ⊎ Apart (a * ptr_sz + d.hashoff) ptr_sz (b * ptr_sz + d.hashoff) ptr_sz
    by_order a b = elim (split_le a b) [
      | inl le ↦ elim (split_le b a) [
        | inl ge ↦ inl (omega arith)
        | inr lt ↦ inr (inl (omega arith))
      ]
      | inr gt ↦ inr (inr (omega arith))
    ]

bytes_ne : (a b : Bytes) → b ≢ a → bytes_eq a b ≡ false
bytes_ne a b h = elim (Bool-cases (bytes_eq a b)) [
  | inl e ↦ absurd (h (sym (bytes_eq_sound a b e)))
  | inr e ↦ e
]

-- Where the chain of a key holds index records that stand behind the pointer of the chain and
-- whose texts stand in the data file, the free list is a chain of index records, none of them with
-- the sizes of the new one, the key has no ':' and neither it nor the text a null byte, and the
-- text has 2 to 1024 bytes with its newline, and the files leave room for the fields of the new
-- record: after a db_store (DB_INSERT or DB_STORE) of the key, which no record of its chain has,
-- db_fetch of any other key, on the same chain or on another, returns what its chain held before;
-- that chain too holds such records, behind the pointer of the first.
pub db_fetch-db_store_other :
    (k key text : Bytes) (flag : Flag) (rs : List IndexRecord) (ts : List Bytes)
    (fs : List IndexRecord) (rs' : List IndexRecord) (ts' : List Bytes) (d : Db)
    → Adds flag
    → CanAppend d key text rs ts fs
    → k ≢ key
    → Bucket d.idxfd.bytes d.datfd.bytes (chainoff_of d k) rs' ts'
    → Behind (chainoff_of d key) rs'
    → (g : Db) × ((db_store key text flag >>= λ _. db_fetch k) d ≡ done (find_text k rs' ts') g)
db_fetch-db_store_other k key text flag rs ts fs rs' ts' d a c differ b behind =
    let (e, h, w) = db_store-Stores key text flag rs ts fs d a c in
    let r = added d key text in
    elim (chains-Apart k key d) [
      | inl same ↦
          let (g, q) = fetch_after k key text (r ∷ rs') (text ∷ ts') d e w (
            subst
              (λ o.
                Bucket (linked d.idxfd.bytes (chainoff_of d key) r)
                  (write_at (length d.datfd.bytes) (line text) d.datfd.bytes) o (r ∷ rs')
                  (text ∷ ts'))
              (sym same)
              (Bucket-linked d.idxfd.bytes d.datfd.bytes text (chainoff_of d key) r c.sized refl
                refl refl c.low c.bucket.fits c.plain rs' ts' behind refl
                (subst (λ o. Bucket d.idxfd.bytes d.datfd.bytes o rs' ts') same b))) in
          (
            g,
            rw (h, bind_outcome)
                (q
                  ∙ ap (λ t. done (if t then some text else find_text k rs' ts') g)
                      (bytes_ne key k differ)),
          )
      | inr apart ↦
          let (g, q) = fetch_after k key text rs' ts' d e w (
            Bucket-linked_other d.idxfd.bytes d.datfd.bytes text (chainoff_of d key) r c.sized refl
              refl refl c.low c.bucket.fits c.plain (chainoff_of d k) rs' ts' behind apart b) in
          (g, rw (h, bind_outcome) q)
    ]
