-- ===== src/Db/Ops/Replace.antt =====
-- `db_store` of apue.3e/db/db.c where a record has the key and its text the length of the new one:
-- the text is overwritten in place.
pub mod OneText
use play_apue.Db.Record.{ptr_sz}
use play_apue.Db.Ascii.{long_max}
use play_apue.Prelude.{
  ◌+◌, ◌≤◌, ◌≡◌, ◌≢◌, refl, ap, sym, ◌∙◌, true, false, List, [], ◌∷◌, some, arith, Bytes, length,
  Lacks, inl, inr, bytes_eq, bytes_eq_refl, bytes_eq_sound, Bool-cases, if◌then◌else◌, ◌==◌, ◌*◌,
}
use mathlib.Core.Path.{subst, ap₂, subst₃}
use play_apue.Db.Storage.{write_at}
use play_apue.Db.State.{Db, Counts, Which, done, without, bind_outcome, ◌>>=◌}
use play_apue.Db.Record.Index.{IndexRecord}
use play_apue.Db.Record.Data.{line, put_data, db_writedat_lem}
use play_apue.Db.Ops.{
  Flag, insert, replace, store, other, ok, db_store, store_locked, store_found, store_over,
  replace_same, valid_length, db_fetch, db_find_and_lock, db_hash,
}
use play_apue.Db.Ops.Search.{
  chainoff_of, find_record, is_some, scanned, begun, db_find_and_lock_lem, scanned-Found, Found,
  scanned-IsCurrent, IsCurrent,
}
use play_apue.Db.Ops.Fetch.{Bucket, find_text, db_fetch-eq-find_text}
use play_apue.Db.Ops.Replace.OneText.{
  replace_text, Elsewhere, Texts-replace_text, find_text-replace_text, data_within,
}

-- The flags that allow a replacement.
abbrev pub Replaces : Flag → Type 0
Replaces replace = Unit
Replaces store = Unit
Replaces _ = ⊥

abbrev pub count_stor4 : Counts → Counts
count_stor4 c = record c { cnt_stor4 = c.cnt_stor4 + 1 }

abbrev overwritten : Bytes → Db → Db
overwritten text s =
    let e = put_data s.datoff text s in
    record e { counts = count_stor4 e.counts; locks = without Which.idxfd s.chainoff 1 s.locks }

store_same_end :
    (key text : Bytes) (flag : Flag) (d s : Db)
    → Replaces flag
    → valid_length text ≡ true
    → db_find_and_lock key true d ≡ done true s
    → (length text + 1 == s.datlen) ≡ true
    → s.datoff ≤ long_max
    → db_store key text flag d ≡ done ok (overwritten text s)
unfolding db_store store_locked store_found store_over replace_same
store_same_end key text replace d s a v h e small =
    rw (v, bind_outcome)
      (rw (h, bind_outcome)
        (rw (e, bind_outcome) (rw (db_writedat_lem text s.datoff s small, bind_outcome) refl)))
store_same_end key text store d s a v h e small =
    rw (v, bind_outcome)
      (rw (h, bind_outcome)
        (rw (e, bind_outcome) (rw (db_writedat_lem text s.datoff s small, bind_outcome) refl)))
store_same_end key text insert d s a v h e small = absurd a
store_same_end key text other d s a v h e small = absurd a

-- The store overwrites the text of the record `r`.
pub record CanReplace (d : Db) (key text : Bytes) (rs : List IndexRecord) (ts : List Bytes)
    (r : IndexRecord) : Type 0 where
  pub valid : valid_length text ≡ true
  pub plain : Lacks 0 text
  pub bucket : Bucket d.idxfd.bytes d.datfd.bytes (chainoff_of d key) rs ts
  pub present : find_record key rs ≡ some r
  pub same_size : r.datlen ≡ length text + 1
  pub elsewhere : Elsewhere key r rs

-- What changes is the one text.
pub record Overwrites (text : Bytes) (r : IndexRecord) (d e : Db) : Type 0 where
  pub same_idx : e.idxfd.bytes ≡ d.idxfd.bytes
  pub new_dat : e.datfd.bytes ≡ write_at r.datoff (line text) d.datfd.bytes
  pub same_hashoff : e.hashoff ≡ d.hashoff
  pub same_nhash : e.nhash ≡ d.nhash
  pub counted : e.counts ≡ count_stor4 d.counts

-- Such a replacement returns 0, overwrites the old text in place, leaves the index file as it was
-- and counts cnt_stor4.
pub db_store-Overwrites :
    (key text : Bytes) (flag : Flag) (rs : List IndexRecord) (ts : List Bytes) (r : IndexRecord)
    (d : Db)
    → Replaces flag
    → CanReplace d key text rs ts r
    → (e : Db) × (db_store key text flag d ≡ done ok e) × Overwrites text r d e
db_store-Overwrites key text flag rs ts r d a c =
    let s = scanned key rs (begun key true d) in
    let f : Found key rs (chainoff_of d key) (begun key true d) s =
      scanned-Found key rs (begun key true d) in
    let cur : IsCurrent r s = scanned-IsCurrent key rs (begun key true d) r c.present in
    let found : db_find_and_lock key true d ≡ done true s =
      db_find_and_lock_lem key true rs d c.bucket.fits c.bucket.small c.bucket.chain
      ∙ ap (λ o. done (is_some o) s) c.present in
    let (_, small) = data_within key d.datfd.bytes rs ts r c.bucket.texts c.present in
    (
      overwritten text s,
      store_same_end key text flag d s a c.valid found (same_length s cur)
          (omega (arith, cur.cur_datoff)),
      record {
        same_idx = f.same_idx;
        new_dat =
            ap₂ (λ o b. write_at o (line text) b) cur.cur_datoff (ap (λ x. x.bytes) f.same_dat);
        same_hashoff = f.same_hashoff;
        same_nhash = f.same_nhash;
        counted = ap count_stor4 f.same_counts;
      },
    )
  where
    same_length : (s : Db) → IsCurrent r s → (length text + 1 == s.datlen) ≡ true
    same_length s cur = ground (arith, cur.cur_datlen, c.same_size)

replaced_Bucket :
    (k key text : Bytes) (rs : List IndexRecord) (ts : List Bytes) (r : IndexRecord) (d e : Db)
    → CanReplace d key text rs ts r
    → chainoff_of d k ≡ chainoff_of d key
    → Overwrites text r d e
    → Bucket e.idxfd.bytes e.datfd.bytes (chainoff_of e k) rs (replace_text key text rs ts)
replaced_Bucket k key text rs ts r d e c same w =
    let b = c.bucket in
    let (within, _) = data_within key d.datfd.bytes rs ts r b.texts c.present in
    subst₃ (λ i t o. Bucket i t o rs (replace_text key text rs ts)) (sym w.same_idx) (sym w.new_dat)
      (sym same ∙ sym (ap₂ (λ n h. db_hash n k * ptr_sz + h) w.same_nhash w.same_hashoff))
      (record {
        fits = b.fits;
        small = b.small;
        chain = b.chain;
        texts =
            Texts-replace_text d.datfd.bytes key text r c.plain c.same_size rs ts b.texts c.present
              c.elsewhere (omega arith);
      })

-- After a db_store (DB_REPLACE or DB_STORE) of a key that a record of its chain has, with a text
-- of the same length as the old one, db_fetch of the key returns the new text; the texts of the
-- other records on the chain are taken to stand elsewhere.
pub db_fetch-db_store_replaced :
    (key text : Bytes) (flag : Flag) (rs : List IndexRecord) (ts : List Bytes) (r : IndexRecord)
    (d : Db)
    → Replaces flag
    → CanReplace d key text rs ts r
    → (g : Db) × ((db_store key text flag >>= λ _. db_fetch key) d ≡ done (some text) g)
db_fetch-db_store_replaced key text flag rs ts r d a c =
    let (e, h, w) = db_store-Overwrites key text flag rs ts r d a c in
    let (g, q, _) =
      db_fetch-eq-find_text key rs (replace_text key text rs ts) e
        (replaced_Bucket key key text rs ts r d e c refl w) in
    (
      g,
      rw (h, bind_outcome)
          (q
            ∙ ap (λ o. done o g)
                (find_text-replace_text key text d.datfd.bytes rs ts r c.bucket.texts c.present)),
    )

find_text-replace_text_other :
    (k key text : Bytes) (rs : List IndexRecord) (ts : List Bytes)
    → k ≢ key
    → find_text k rs (replace_text key text rs ts) ≡ find_text k rs ts
find_text-replace_text_other k key text [] ts h = refl
find_text-replace_text_other k key text (s ∷ rs) [] h = refl
find_text-replace_text_other k key text (s ∷ rs) (t ∷ ts) h =
    elim (Bool-cases (bytes_eq s.key key)) [
      | inl q ↦ rw q (rw (not_k q))
      | inr q ↦ rw q (
          ap (λ o. if bytes_eq s.key k then some t else o)
            (find_text-replace_text_other k key text rs ts h))
    ]
  where
    not_k : bytes_eq s.key key ≡ true → bytes_eq s.key k ≡ false
    not_k q = elim (Bool-cases (bytes_eq s.key k)) [
      | inl e ↦ absurd (h (sym (bytes_eq_sound s.key k e) ∙ bytes_eq_sound s.key key q))
      | inr e ↦ e
    ]

-- After a db_store (DB_REPLACE or DB_STORE) of a key that a record of its chain has, with a text
-- of the same length as the old one, db_fetch of another key on the same chain returns what the
-- chain held before.
pub db_fetch-db_store_replaced_other :
    (k key text : Bytes) (flag : Flag) (rs : List IndexRecord) (ts : List Bytes) (r : IndexRecord)
    (d : Db)
    → Replaces flag
    → CanReplace d key text rs ts r
    → k ≢ key
    → chainoff_of d k ≡ chainoff_of d key
    → (g : Db) × ((db_store key text flag >>= λ _. db_fetch k) d ≡ done (find_text k rs ts) g)
db_fetch-db_store_replaced_other k key text flag rs ts r d a c differ same =
    let (e, h, w) = db_store-Overwrites key text flag rs ts r d a c in
    let (g, q, _) =
      db_fetch-eq-find_text k rs (replace_text key text rs ts) e
        (replaced_Bucket k key text rs ts r d e c same w) in
    (
      g,
      rw (h, bind_outcome)
          (q ∙ ap (λ o. done o g) (find_text-replace_text_other k key text rs ts differ)),
    )

-- After a db_store (DB_REPLACE or DB_STORE) of a key that a record of its chain has, with a text
-- of the same length as the old one, without null bytes and of 2 to 1024 bytes with its newline,
-- db_fetch of the key returns the new text and db_fetch of another key on the same chain what the
-- chain held before; the texts of the chain are taken to stand in the data file, those of the
-- other records elsewhere.
pub db_fetch-db_store_overwritten :
    (k key text : Bytes) (flag : Flag) (rs : List IndexRecord) (ts : List Bytes) (r : IndexRecord)
    (d : Db)
    → Replaces flag
    → CanReplace d key text rs ts r
    → chainoff_of d k ≡ chainoff_of d key
    → (g : Db) × ((db_store key text flag >>= λ _. db_fetch k) d
        ≡ done (if bytes_eq key k then some text else find_text k rs ts) g)
db_fetch-db_store_overwritten k key text flag rs ts r d a c same =
    elim (Bool-cases (bytes_eq key k)) [
      | inl q ↦ rw q (
          subst
            (λ x. (g : Db) × ((db_store key text flag >>= λ _. db_fetch x) d ≡ done (some text) g))
            (bytes_eq_sound key k q) (db_fetch-db_store_replaced key text flag rs ts r d a c))
      | inr n ↦ rw n (
          db_fetch-db_store_replaced_other k key text flag rs ts r d a c
            (λ e. cc (sym n ∙ ap (bytes_eq key) e ∙ bytes_eq_refl key)) same)
    ]
