-- ===== src/Db/Record/Keeps.antt =====
-- What no function of apue.3e/db/db.c that reads or writes one field or record changes, whatever
-- the files hold: the held locks, the place of the hash chain, and, for those that read, the files.
use play_apue.Prelude.{
  ℕ, ◌≡◌, refl, Bytes, List, List, true, false, arith, Bool, ◌∙◌, if◌then◌else◌,
}
use play_apue.Db.Storage.{lseek, read, Whence}
use play_apue.Db.State.{
  Db, Outcome, done, dead, endless, Lock, M, ◌>>◌, bind_outcome, Fault, without, Which, ensure,
}
use play_apue.Db.Record.{
  db_readptr, db_readidx, db_readdat, db_writeptr, db_writeidx, db_writedat, read_body,
  parse_fields, records_off,
}

-- Every regular end of the run satisfies `P`.
abbrev pub Post : {A : Type 0} → (A → Db → Type 0) → Outcome A → Type 0
Post P (done a d) = P a d
Post P (dead e d) = Unit
Post P endless = Unit

pub Post-bind :
    {A B : Type 0} (P : A → Db → Type 0) (Q : B → Db → Type 0) (m : Outcome A) (f : A → M B)
    → Post P m
    → ((a : A) (d : Db) → P a d → Post Q (f a d))
    → Post Q (bind_outcome m f)
Post-bind P Q (done a d) f h k = k a d h
Post-bind P Q (dead e d) f h k = tt
Post-bind P Q endless f h k = tt

pub Post-if :
    {A : Type 0} (P : A → Db → Type 0) (b : Bool) (m n : M A) (d : Db)
    → (b ≡ true → Post P (m d))
    → (b ≡ false → Post P (n d))
    → Post P ((if b then m else n) d)
Post-if P true m n d h k = h refl
Post-if P false m n d h k = k refl

pub Post-ensure :
    {A : Type 0} (P : A → Db → Type 0) (b : Bool) (e : Fault) (k : M A) (d : Db)
    → Post P (k d)
    → Post P ((ensure b e >> k) d)
Post-ensure P true e k d h = h
Post-ensure P false e k d h = tt

-- Nothing but the place in the file and the current record changes.
pub record Reads (c d : Db) : Type 0 where
  pub same_idx : d.idxfd.bytes ≡ c.idxfd.bytes
  pub same_dat : d.datfd.bytes ≡ c.datfd.bytes
  pub same_chainoff : d.chainoff ≡ c.chainoff
  pub same_ptroff : d.ptroff ≡ c.ptroff
  pub same_hashoff : d.hashoff ≡ c.hashoff
  pub same_nhash : d.nhash ≡ c.nhash
  pub same_locks : d.locks ≡ c.locks

pub db_readptr-Reads : (off : ℕ) (d : Db) → Post (λ _. Reads d) (db_readptr off d)
unfolding db_readptr lseek read
db_readptr-Reads off d = ground arith

pub parse_fields-Reads : (s : Bytes) (d : Db) → Post (λ _. Reads d) (parse_fields s d)
unfolding parse_fields
parse_fields-Reads s d = ground arith

pub db_readidx-Reads : (off : ℕ) (d : Db) → Post (λ _. Reads d) (db_readidx off d)
unfolding db_readidx read_body lseek read parse_fields
db_readidx-Reads off d = ground arith

pub db_readdat-Reads : (d : Db) → Post (λ _. Reads d) (db_readdat d)
unfolding db_readdat lseek read
db_readdat-Reads d = ground arith

-- The held locks and the chain that the operation works on.
pub record Holds (ls : List Lock) (off : ℕ) (d : Db) : Type 0 where
  pub held : d.locks ≡ ls
  pub chain : d.chainoff ≡ off

module _ (ls : List Lock) (off : ℕ) where
  Reads-Holds :
      {A : Type 0} (d : Db) (m : Outcome A)
      → Holds ls off d
      → Post (λ _. Reads d) m
      → Post (λ _. Holds ls off) m
  Reads-Holds d (done a e) h r = record {
    held = r.same_locks ∙ h.held;
    chain = r.same_chainoff ∙ h.chain;
  }
  Reads-Holds d (dead f e) h r = tt
  Reads-Holds d endless h r = tt

  pub db_readptr-Holds :
      (o : ℕ) (d : Db) → Holds ls off d → Post (λ _. Holds ls off) (db_readptr o d)
  db_readptr-Holds o d h = Reads-Holds d _ h (db_readptr-Reads o d)

  pub db_readidx-Holds :
      (o : ℕ) (d : Db) → Holds ls off d → Post (λ _. Holds ls off) (db_readidx o d)
  db_readidx-Holds o d h = Reads-Holds d _ h (db_readidx-Reads o d)

  pub db_readdat-Holds : (d : Db) → Holds ls off d → Post (λ _. Holds ls off) (db_readdat d)
  db_readdat-Holds d h = Reads-Holds d _ h (db_readdat-Reads d)

  pub db_writeptr-Holds :
      (o p : ℕ) (d : Db) → Holds ls off d → Post (λ _. Holds ls off) (db_writeptr o p d)
  unfolding db_writeptr lseek
  db_writeptr-Holds o p d h = ground arith

  pub db_writedat-Holds :
      (text : Bytes) (o : ℕ) (w : Whence) (d : Db)
      → without Which.datfd 0 0 ls ≡ ls
      → Holds ls off d
      → Post (λ _. Holds ls off) (db_writedat text o w d)
  unfolding db_writedat lseek
  db_writedat-Holds text o w d free h = ground arith

  pub db_writeidx-Holds :
      (key : Bytes) (o : ℕ) (w : Whence) (p : ℕ) (d : Db)
      → without Which.idxfd (records_off d) 0 ls ≡ ls
      → Holds ls off d
      → Post (λ _. Holds ls off) (db_writeidx key o w p d)
  unfolding db_writeidx lseek
  db_writeidx-Holds key o w p d free h = ground arith
