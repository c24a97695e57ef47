-- ===== src/Db/Record/Text.antt =====
-- The text of an index record of apue.3e/db/db.c, and how `_db_readidx` takes it apart.
use play_apue.Prelude.{
  ℕ, ◌+◌, ◌-◌, ◌≤◌, ◌<◌, ◌≡◌, ◌≢◌, refl, inl, inr, ap, sym, ◌∙◌, true, none, some, [], ◌∷◌, ◌++◌,
  append_assoc, append-nil, arith, Bytes, Lacks, All-append, cstr, cstr_lem, length, length-append,
  take, take-length-append, last?-snoc,
}
use play_apue.Db.Ascii.{digits, atol, long_max}
use play_apue.Db.Ascii.RoundTrip.{atol-digits, digits-Lacks}
use play_apue.Db.State.{Db, done}
use play_apue.Db.Record.{
  sep, newline, split_at, ends_in_newline, index_text, parse_fields, datlen_max,
}

split_at-append : (b : ℕ) (s t : Bytes) → Lacks b s → split_at b (s ++ b ∷ t) ≡ some (s, t)
unfolding split_at
split_at-append b [] t h = ground arith
split_at-append b (c ∷ s) t h = ground (arith, split_at-append b s t)

split_at-Lacks : (b : ℕ) (s : Bytes) → Lacks b s → split_at b s ≡ none
unfolding split_at
split_at-Lacks b [] h = refl
split_at-Lacks b (c ∷ s) h = ground (arith, split_at-Lacks b s)

-- The text up to its newline.
pub index_line : Bytes → ℕ → ℕ → Bytes
index_line key datoff datlen = key ++ sep ∷ (digits datoff ++ sep ∷ digits datlen)

pub index_text_line :
    (key : Bytes) (o l : ℕ) → index_text key o l ≡ index_line key o l ++ newline ∷ []
unfolding index_text index_line
index_text_line key o l = simp append_assoc

pub index_line-Lacks : (key : Bytes) (o l : ℕ) → Lacks 0 key → Lacks 0 (index_line key o l)
unfolding index_line
index_line-Lacks key o l h =
    All-append (λ c. c ≢ 0) key _ h
      (
        omega arith,
        All-append (λ c. c ≢ 0) (digits o) _ (digits-Lacks o 0 (inl (omega arith)))
            (omega arith, digits-Lacks l 0 (inl (omega arith))),
      )

pub index_text-ends : (key : Bytes) (o l : ℕ) → ends_in_newline (index_text key o l) ≡ true
index_text-ends key o l =
    rw (index_text_line key o l)
      (rw (last?-snoc (index_line key o l) newline, ends_in_newline) refl)

pub length-index_text :
    (key : Bytes) (o l : ℕ) → length (index_text key o l) ≡ length (index_line key o l) + 1
length-index_text key o l =
    rw (index_text_line key o l) (length-append (index_line key o l) (newline ∷ []))

-- What `_db_readidx` hands on to the search for separators.
pub line-index_text :
    (key : Bytes) (o l : ℕ)
    → Lacks 0 key
    → cstr (take (length (index_text key o l) - 1) (index_text key o l)) ≡ index_line key o l
line-index_text key o l h =
    let n : length (index_text key o l) - 1 ≡ length (index_line key o l) =
      omega (arith, length-index_text key o l) in
    rw n (
      rw (index_text_line key o l) (
        rw (take-length-append (index_line key o l) (newline ∷ []))
          (cstr_lem _ (index_line-Lacks key o l h))))

atol-digits_nil : (n : ℕ) → n ≤ long_max → atol (digits n) ≡ n
atol-digits_nil n h = ap atol (sym (append-nil (digits n))) ∙ atol-digits n [] h tt

-- The fields of a record's text are read back.
pub parse_fields_lem :
    (key : Bytes) (o l : ℕ) (d : Db)
    → Lacks sep key
    → o ≤ long_max
    → 0 < l
    → l ≤ datlen_max
    → parse_fields (index_line key o l) d
      ≡ done tt (record d { idxbuf = key; datoff = o; datlen = l })
unfolding parse_fields index_line
parse_fields_lem key o l d hk ho hl hm =
    rw (split_at-append sep key (digits o ++ sep ∷ digits l) hk, parse_fields)
      (rw
        (
          split_at-append sep (digits o) (digits l) (digits-Lacks o sep (inr (omega arith))),
          parse_fields,
        )
        (rw (split_at-Lacks sep (digits l) (digits-Lacks l sep (inr (omega arith))), parse_fields)
          (ground (arith, atol-digits_nil o ho, atol-digits_nil l (omega arith)))))
