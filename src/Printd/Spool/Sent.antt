-- ===== src/Printd/Spool/Sent.antt =====
-- A request of apue.3e/printer as a client lays it out in its structure, and what client_thread reads from it.

use play_apue.Prelude.{
  ℕ, ◌+◌, ◌*◌, ◌/◌, ◌<◌, ◌%◌, ◌^◌, Lacks, cstr, drop, drop-length-append, length-append, ◌≡◌, refl,
  ap, sym, ◌∙◌, [], ◌∷◌, ◌++◌, append_assoc, arith, Bytes, length,
}
use play_apue.Printd.{Printreq}
use play_apue.Printd.Ipp.{htonl}
use play_apue.Printd.Spool.{printreq_size, read_request}

-- A request that fits its structure, with what is behind the nulls of its texts.
pub record IsSent (req : Printreq) (behind_usernm behind_jobnm : Bytes) : Type 0 where
  pub size_fits : req.size < 2 ^ 32
  pub flags_fit : req.flags < 2 ^ 32
  pub usernm_string : Lacks 0 req.usernm
  pub jobnm_string : Lacks 0 req.jobnm
  pub usernm_fits : length req.usernm + 1 + length behind_usernm ≡ 64
  pub jobnm_fits : length req.jobnm + 1 + length behind_jobnm ≡ 256

-- `struct printreq` as a client sends it: the numbers in network order, the texts in their arrays.
abbrev pub request_bytes : Printreq → Bytes → Bytes → Bytes
request_bytes req behind_usernm behind_jobnm =
    htonl req.size
    ++ (htonl req.flags ++ ((req.usernm ++ 0 ∷ behind_usernm) ++ (req.jobnm ++ 0 ∷ behind_jobnm)))

word_back :
    (n : ℕ)
    → n < 2 ^ 32
    → n / 2 ^ 24 % 2 ^ 8 * 2 ^ 24
        + n / 2 ^ 16 % 2 ^ 8 * 2 ^ 16
        + n / 2 ^ 8 % 2 ^ 8 * 2 ^ 8
        + n % 2 ^ 8
      ≡ n
word_back n h = omega arith

cstr-append : (s rest : Bytes) → Lacks 0 s → cstr (s ++ 0 ∷ rest) ≡ s
cstr-append [] rest h = refl
cstr-append (c ∷ s) rest h = ground (arith, cstr-append s rest)

module _ (req : Printreq) (behind_usernm behind_jobnm : Bytes)
    (sent : IsSent req behind_usernm behind_jobnm) where
  abbrev usernm_array : Bytes
  usernm_array = req.usernm ++ 0 ∷ behind_usernm

  abbrev jobnm_array : Bytes
  jobnm_array = req.jobnm ++ 0 ∷ behind_jobnm

  length-usernm_array : length usernm_array ≡ 64
  length-usernm_array =
      omega (arith, length-append req.usernm (0 ∷ behind_usernm), sent.usernm_fits)

  pub length-request_bytes : length (request_bytes req behind_usernm behind_jobnm) ≡ printreq_size
  length-request_bytes = omega (
    arith,
    length-usernm_array,
    length-append usernm_array jobnm_array,
    length-append req.jobnm (0 ∷ behind_jobnm),
    sent.jobnm_fits,
  )

  usernm_back : cstr (usernm_array ++ jobnm_array) ≡ req.usernm
  usernm_back =
      ap cstr (append_assoc req.usernm (0 ∷ behind_usernm) jobnm_array)
      ∙ cstr-append req.usernm (behind_usernm ++ jobnm_array) sent.usernm_string

  jobnm_back : cstr (drop 64 (usernm_array ++ jobnm_array)) ≡ req.jobnm
  jobnm_back =
      ap (λ n. cstr (drop n (usernm_array ++ jobnm_array))) (sym length-usernm_array)
      ∙ ap cstr (drop-length-append usernm_array jobnm_array)
      ∙ cstr-append req.jobnm behind_jobnm sent.jobnm_string

  pub read_request-request_bytes : read_request (request_bytes req behind_usernm behind_jobnm) ≡ req
  unfolding read_request
  read_request-request_bytes =
      rw
        (
          word_back req.size sent.size_fits,
          word_back req.flags sent.flags_fit,
          usernm_back,
          jobnm_back,
        )
        refl
