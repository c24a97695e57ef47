-- ===== src/Db/Ops.antt =====
-- apue.3e/db/db.c, the search of the chains and the library's own interface. A search is on fuel: an
-- index file has fewer records than bytes, so a chain that does not end within that many steps
-- visits a record twice and does not end at all, in the source neither.
pub mod Locks
pub mod Chain
pub mod Search
pub mod Fetch
pub mod Errors
pub mod Free
pub mod Insert
pub mod Append
pub mod Lookup
pub mod Replace
pub mod Relink
pub mod Unlink
pub mod Delete
pub mod Texts
pub mod Removed
pub mod Moved
pub mod Refill
pub mod Reuse
pub mod Reused
pub mod Sequence
use play_apue.Prelude.{
  ℕ, zero, suc, ◌+◌, ◌-◌, ◌*◌, ◌%◌, ◌^◌, Bool, true, false, ◌&&◌, ◌||◌, Option, none, some, [], ◌∷◌,
  Bytes, ltb, leb, ◌==◌, if◌then◌else◌, length, replicate, bytes_eq, not,
}
use play_apue.Db.Storage.{seek_set, seek_end}
use play_apue.Db.State.{
  Db, Counts, Which, Fault, endless, M, ◌>>=◌, ◌>>◌, pure, get, modify, ensure, lseek_idx,
  take_lock, un_lock,
}
use play_apue.Db.Record.{
  ptr_sz, datlen_min, datlen_max, is_negative, db_readptr, db_readidx, db_readdat, db_writedat,
  db_writeidx, db_writeptr, records_off,
}

abbrev pub free_off : ℕ
free_off = 0

abbrev pub space : ℕ
space = b' '

-- A `char` is signed: a byte from 128 on stands for itself less 256, as a word.
abbrev pub sign_extend : ℕ → ℕ
sign_extend c = if ltb c 128 then c else 2 ^ 64 - 256 + c

-- The loop of `_db_hash`, from the index `i` on.
unfoldable pub hash_from : ℕ → ℕ → Bytes → ℕ
hash_from i hval [] = hval
hash_from i hval (c ∷ s) = hash_from (i + 1) ((hval + sign_extend c * i) % 2 ^ 64) s

-- `_db_hash`
unfoldable pub db_hash : ℕ → Bytes → ℕ
db_hash nhash key = hash_from 1 0 key % nhash

abbrev pub chain_fuel : Db → ℕ
chain_fuel d = suc (length d.idxfd.bytes)

-- The loop of `_db_find_and_lock`; true stands for a record that is found.
unfoldable pub find_loop : ℕ → Bytes → ℕ → M Bool
find_loop zero key offset = λ d. endless
find_loop (suc fuel) key offset = if offset == 0 then pure false else (do
  nextoffset ← db_readidx offset
  d ← get
  if bytes_eq d.idxbuf key
      then pure true
      else (do modify λ e. record e { ptroff = offset }; find_loop fuel key nextoffset))

-- `_db_find_and_lock`, whose result 0 is true here and whose -1 is false.
unfoldable pub db_find_and_lock : Bytes → Bool → M Bool
db_find_and_lock key writelock = do
  d ← get
  let chainoff = db_hash d.nhash key * ptr_sz + d.hashoff
  modify λ e. record e { chainoff = chainoff; ptroff = chainoff }
  take_lock writelock Which.idxfd chainoff 1
  offset ← db_readptr chainoff
  find_loop (chain_fuel d) key offset

abbrev pub count : (Counts → Counts) → M (Unit {0})
count f = modify λ d. record d { counts = f d.counts }

abbrev pub unlock_chain : M (Unit {0})
unlock_chain d = un_lock Which.idxfd d.chainoff 1 d

abbrev fetch_error : M (Option Bytes)
fetch_error = do count λ c. record c { cnt_fetcherr = c.cnt_fetcherr + 1 }; pure none

abbrev fetch_found : M (Option Bytes)
fetch_found = do
  text ← db_readdat
  count λ c. record c { cnt_fetchok = c.cnt_fetchok + 1 }
  pure (some text)

-- `db_fetch`; `none` is the null pointer.
unfoldable pub db_fetch : Bytes → M (Option Bytes)
db_fetch key = do
  found ← db_find_and_lock key false
  ptr ← if found then fetch_found else fetch_error
  unlock_chain
  pure ptr

-- `_db_dodelete`
unfoldable pub db_dodelete : M (Unit {0})
db_dodelete = do
  modify λ d. record d {
    datbuf = replicate (d.datlen - 1) space;
    idxbuf = replicate (length d.idxbuf) space;
  }
  take_lock true Which.idxfd free_off 1
  d ← get
  db_writedat d.datbuf d.datoff seek_set
  freeptr ← db_readptr free_off
  db_writeidx d.idxbuf d.idxoff seek_set freeptr
  e ← get
  db_writeptr free_off e.idxoff
  db_writeptr e.ptroff d.ptrval
  un_lock Which.idxfd free_off 1

abbrev delete_found : M (Unit {0})
delete_found = do db_dodelete; count λ c. record c { cnt_delok = c.cnt_delok + 1 }

-- `db_delete`; true is the result 0, false the result -1.
unfoldable pub db_delete : Bytes → M Bool
db_delete key = do
  found ← db_find_and_lock key true
  if found then delete_found else count (λ c. record c { cnt_delerr = c.cnt_delerr + 1 })
  unlock_chain
  pure found

-- The loop of `_db_findfree`: the offset of the pointer to the free record that is found.
unfoldable pub findfree_loop : ℕ → ℕ → ℕ → ℕ → ℕ → M (Option ℕ)
findfree_loop zero keylen datlen saveoffset offset = λ d. endless
findfree_loop (suc fuel) keylen datlen saveoffset offset = if offset == 0 then pure none else (do
  nextoffset ← db_readidx offset
  d ← get
  if length d.idxbuf == keylen && d.datlen == datlen
      then pure (some saveoffset)
      else findfree_loop fuel keylen datlen offset nextoffset)

-- What `_db_findfree` does with the result of its loop.
unfoldable pub unlink_free : Option ℕ → M Bool
unlink_free none = pure false
unlink_free (some saveoffset) = do d ← get; db_writeptr saveoffset d.ptrval; pure true

-- `_db_findfree`; true is the result 0.
unfoldable pub db_findfree : ℕ → ℕ → M Bool
db_findfree keylen datlen = do
  take_lock true Which.idxfd free_off 1
  offset ← db_readptr free_off
  d ← get
  found ← findfree_loop (chain_fuel d) keylen datlen free_off offset
  rc ← unlink_free found
  un_lock Which.idxfd free_off 1
  pure rc

pub data Flag : Type 0 where
  insert replace store : Flag
  other : Flag

-- The results of `db_store`, with the `errno` that it sets.
pub data Stored : Type 0 where
  ok exists no_entry bad_flag : Stored

abbrev pub append_record : Bytes → Bytes → ℕ → M (Unit {0})
append_record key text ptrval = do
  db_writedat text 0 seek_end
  db_writeidx key 0 seek_end ptrval
  d ← get
  db_writeptr d.chainoff d.idxoff

-- The record goes to the ends of the files.
unfoldable pub store_append : Bytes → Bytes → ℕ → M (Unit {0})
store_append key text ptrval = do
  append_record key text ptrval
  count λ c. record c { cnt_stor1 = c.cnt_stor1 + 1 }

-- The record goes where `_db_findfree` has found room.
unfoldable pub store_reuse : Bytes → Bytes → ℕ → M (Unit {0})
store_reuse key text ptrval = do
  d ← get
  db_writedat text d.datoff seek_set
  e ← get
  db_writeidx key e.idxoff seek_set ptrval
  f ← get
  db_writeptr f.chainoff f.idxoff
  count λ c. record c { cnt_stor2 = c.cnt_stor2 + 1 }

-- `db_store` where no record has the key.
unfoldable pub store_new : Bytes → Bytes → M (Unit {0})
store_new key text = do
  d ← get
  ptrval ← db_readptr d.chainoff
  found ← db_findfree (length key) (length text + 1)
  if found then store_reuse key text ptrval else store_append key text ptrval

unfoldable pub replace_other : Bytes → Bytes → M (Unit {0})
replace_other key text = do
  db_dodelete
  d ← get
  ptrval ← db_readptr d.chainoff
  append_record key text ptrval
  count λ c. record c { cnt_stor3 = c.cnt_stor3 + 1 }

unfoldable pub replace_same : Bytes → M (Unit {0})
replace_same text = do
  d ← get
  db_writedat text d.datoff seek_set
  count λ c. record c { cnt_stor4 = c.cnt_stor4 + 1 }

-- `db_store` where a record has the key and is replaced.
unfoldable pub store_over : Bytes → Bytes → M (Unit {0})
store_over key text = do
  d ← get
  if length text + 1 == d.datlen then replace_same text else replace_other key text

-- What `db_store` does once it knows whether a record has the key.
unfoldable pub store_found : Bytes → Bytes → Flag → Bool → M Stored
store_found key text replace false = do
  count λ c. record c { cnt_storerr = c.cnt_storerr + 1 }
  pure no_entry
store_found key text insert true = do
  count λ c. record c { cnt_storerr = c.cnt_storerr + 1 }
  pure exists
store_found key text _ false = do store_new key text; pure ok
store_found key text _ true = do store_over key text; pure ok

-- `db_store` behind its checks of the arguments.
unfoldable pub store_locked : Bytes → Bytes → Flag → M Stored
store_locked key text flag = do
  found ← db_find_and_lock key true
  rc ← store_found key text flag found
  unlock_chain
  pure rc

abbrev pub valid_length : Bytes → Bool
valid_length text = leb datlen_min (length text + 1) && leb (length text + 1) datlen_max

-- `db_store`
unfoldable pub db_store : Bytes → Bytes → Flag → M Stored
db_store key text other = pure bad_flag
db_store key text flag = do
  ensure (valid_length text) Fault.invalid_length
  store_locked key text flag

-- `db_rewind`
unfoldable pub db_rewind : M (Unit {0})
db_rewind = do
  d ← get
  at ← lseek_idx (records_off d) seek_set
  modify λ e. record e { idxoff = at }

-- The test for a key that is not all blank.
unfoldable pub has_nonblank : Bytes → Bool
has_nonblank [] = false
has_nonblank (c ∷ s) = not (c == space) || has_nonblank s

-- The loop of `db_nextrec`: whether there is another record.
unfoldable pub nextrec_loop : ℕ → M Bool
nextrec_loop zero = λ d. endless
nextrec_loop (suc fuel) = do
  r ← db_readidx 0
  d ← get
  if is_negative r
      then pure false
      else if has_nonblank d.idxbuf
      then pure true
      else nextrec_loop fuel

abbrev next_record : M (Option (Bytes × Bytes))
next_record = do
  d ← get
  text ← db_readdat
  count λ c. record c { cnt_nextrec = c.cnt_nextrec + 1 }
  pure (some (d.idxbuf, text))

-- `db_nextrec`, with the key that it copies out.
unfoldable pub db_nextrec : M (Option (Bytes × Bytes))
db_nextrec = do
  take_lock false Which.idxfd free_off 1
  d ← get
  more ← nextrec_loop (chain_fuel d)
  r ← if more then next_record else pure none
  un_lock Which.idxfd free_off 1
  pure r
