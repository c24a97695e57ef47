-- ===== src/Printd/JobNumber.antt =====
-- apue.3e/printer/printd.c: job numbers, and the file that keeps the next one. An int32_t is its bit
-- pattern.
use play_apue.Prelude.{
  ℕ, zero, suc, ◌+◌, ◌-◌, ◌%◌, ◌^◌, ◌≤◌, ◌<◌, ◌≡◌, refl, ap, sym, ◌∙◌, Bool, false, ◌||◌, List, [],
  ◌∷◌, ◌++◌, arith, leb, ◌==◌, if◌then◌else◌, Bytes, codes, length, take, drop, get_elem?, some,
  All, take_ge, drop_ge, append-nil,
}
use play_apue.Db.Ascii.{digits, atol, is_digit}
use play_apue.Db.Ascii.RoundTrip.{atol-digits, Stops, length-digits, digits_head}

-- `nextjob <= 0` for a bit pattern.
abbrev pub not_positive : ℕ → Bool
not_positive n = n == 0 || leb (2 ^ 31) n

-- The number given out, and the new `nextjob`; the addition wraps.
unfoldable pub get_newjobno : ℕ → ℕ × ℕ
get_newjobno nextjob =
    let next = (nextjob + 1) % 2 ^ 32 in (nextjob, if not_positive next then 1 else next)

-- The numbers of so many calls.
pub job_numbers : ℕ → ℕ → List ℕ
job_numbers zero nextjob = []
job_numbers (suc k) nextjob = let (jobid, next) = get_newjobno nextjob in jobid ∷ job_numbers k next

-- The file holds the decimal behind which old bytes may stand, since it is not truncated.
pub update_jobno : ℕ → Bytes → Bytes
update_jobno nextjob file = digits nextjob ++ drop (length (digits nextjob)) file

abbrev pub filenmsz : ℕ
filenmsz = 64

-- What the buffer holds behind the bytes that are read: the name of the file, which stood there.
abbrev pub job_file_name : Bytes
job_file_name = codes "/var/spool/printer/jobno"

pub init_request : Bytes → ℕ
init_request file =
    let got = take filenmsz file in
    if length got == 0 then 1 else atol (got ++ drop (length got) job_file_name)

get_newjobno_next :
    (n : ℕ)
    → 0 < n
    → n < 2 ^ 31
    → ((get_newjobno n).0 ≡ n) × ((get_newjobno n).1 ≡ n % (2 ^ 31 - 1) + 1)
unfolding get_newjobno
get_newjobno_next n l u = ground arith

-- From a positive nextjob, get_newjobno gives out the positive int32_t values in turn and begins
-- again at 1 behind the last one.
pub get_elem?-job_numbers :
    (k i nextjob : ℕ)
    → 0 < nextjob
    → nextjob < 2 ^ 31
    → i < k
    → get_elem? (job_numbers k nextjob) i ≡ some ((nextjob - 1 + i) % (2 ^ 31 - 1) + 1)
unfolding job_numbers
get_elem?-job_numbers zero i nextjob l u h = absurd (omega arith)
get_elem?-job_numbers (suc k) zero nextjob l u h =
    ap some (omega (arith, (get_newjobno_next nextjob l u).0))
get_elem?-job_numbers (suc k) (suc i) nextjob l u h =
    let e = (get_newjobno_next nextjob l u).1 in
    get_elem?-job_numbers k i (get_newjobno nextjob).1 (omega arith) (omega arith) (omega arith)
    ∙ ap some (omega arith)

no_digits : All (λ c. is_digit c ≡ false) job_file_name
no_digits = (
  refl,
  (
    refl,
    (
      refl,
      (
        refl,
        (
          refl,
          (
            refl,
            (
              refl,
              (
                refl,
                (
                  refl,
                  (
                    refl,
                    (
                      refl,
                      (
                        refl,
                        (
                          refl,
                          (
                            refl,
                            (
                              refl,
                              (
                                refl,
                                (refl, (refl, (refl, (refl, (refl, (refl, (refl, (refl, tt)))))))),
                              ),
                            ),
                          ),
                        ),
                      ),
                    ),
                  ),
                ),
              ),
            ),
          ),
        ),
      ),
    ),
  ),
)

digits_pos : (n : ℕ) → 0 < length (digits n)
digits_pos n =
    let (c, s, e, _) = digits_head n [] in
    let e' : digits n ≡ c ∷ s = sym (append-nil (digits n)) ∙ e in omega (arith, ap length e')

drop-Stops : (k : ℕ) (s : Bytes) → All (λ c. is_digit c ≡ false) s → Stops (drop k s)
drop-Stops zero [] h = tt
drop-Stops zero (c ∷ s) h = h.0
drop-Stops (suc k) [] h = tt
drop-Stops (suc k) (c ∷ s) h = drop-Stops k s h.1

init_request_got :
    (file got : Bytes)
    → take filenmsz file ≡ got
    → 0 < length got
    → init_request file ≡ atol (got ++ drop (length got) job_file_name)
unfolding init_request
init_request_got file got e h =
    let busy : (length got == 0) ≡ false = ground arith in rw (e, init_request) (rw busy refl)

-- A job number that update_jobno writes over one with no more digits is read back by init_request,
-- although the buffer it is read into is not ended by a null.
pub init_request-update_jobno :
    (nextjob : ℕ) (file : Bytes)
    → nextjob < 2 ^ 31
    → length file ≤ length (digits nextjob)
    → init_request (update_jobno nextjob file) ≡ nextjob
unfolding update_jobno
init_request-update_jobno nextjob file u h =
    let whole : update_jobno nextjob file ≡ digits nextjob =
      ap (λ t. digits nextjob ++ t) (drop_ge (length (digits nextjob)) file h)
      ∙ append-nil (digits nextjob) in
    let short : length (digits nextjob) ≤ 10 = length-digits nextjob 9 (omega arith) in
    let got : take filenmsz (update_jobno nextjob file) ≡ digits nextjob =
      ap (take filenmsz) whole ∙ take_ge filenmsz (digits nextjob) (omega arith) in
    init_request_got (update_jobno nextjob file) (digits nextjob) got (digits_pos nextjob)
    ∙ atol-digits nextjob (drop (length (digits nextjob)) job_file_name) (omega arith)
        (drop-Stops (length (digits nextjob)) job_file_name no_digits)
