-- ===== src/Printd/Ipp.antt =====
-- apue.3e/printer/printd.c: the IPP request that the printer thread builds in `ibuf`.
--
-- A cursor that writes is a function that returns the bytes; the null that strcpy puts behind a text is
-- overwritten by what follows. `ipp_request` is what the code sets out to write, and `fill_ibuf` what
-- the buffers `str` and `ibuf` then hold: nothing, where they are overrun.
use play_apue.Prelude.{
  ℕ, zero, suc, ◌+◌, ◌*◌, ◌/◌, ◌%◌, ◌^◌, ◌≤◌, ◌<◌, ◌≡◌, refl, ap, ◌∙◌, Bool, true, false, Option,
  none, some, List, [], ◌∷◌, ◌++◌, append_assoc, arith, ◌==◌, ltb, if◌then◌else◌, Bytes, codes,
  length, take, drop, ◌≢◌, length-append, take-length-append, drop-length-append,
}
use play_apue.Printd.{Printreq}

-- `htons` and `htonl`, as the bytes stored.
abbrev pub htons : ℕ → Bytes
htons n = (n / 2 ^ 8 % 2 ^ 8) ∷ (n % 2 ^ 8) ∷ []

abbrev pub htonl : ℕ → Bytes
htonl n = (n / 2 ^ 24 % 2 ^ 8) ∷ (n / 2 ^ 16 % 2 ^ 8) ∷ (n / 2 ^ 8 % 2 ^ 8) ∷ (n % 2 ^ 8) ∷ []

-- What the call puts at the cursor.
unfoldable pub add_option : ℕ → Bytes → Bytes → Bytes
add_option tag optname optval =
    tag ∷ (htons (length optname) ++ (optname ++ (htons (length optval) ++ optval)))

abbrev pub tag_operation_attr : ℕ
tag_operation_attr = 0x01

abbrev pub tag_end_of_attr : ℕ
tag_end_of_attr = 0x03

abbrev pub tag_charset : ℕ
tag_charset = 0x47

abbrev pub tag_natulang : ℕ
tag_natulang = 0x48

abbrev pub tag_uri : ℕ
tag_uri = 0x45

abbrev pub tag_namewolang : ℕ
tag_namewolang = 0x42

abbrev pub tag_mimetype : ℕ
tag_mimetype = 0x49

abbrev pub op_print_job : ℕ
op_print_job = 0x02

-- `flags & PR_TEXT`
abbrev pub is_text : ℕ → Bool
is_text flags = flags % 2 == 1

abbrev pub document_format : ℕ → Bytes
document_format flags = if is_text flags then codes "text/plain" else codes "application/postscript"

-- `str`
abbrev pub printer_uri : Bytes → Bytes
printer_uri printer_name = codes "http://" ++ (printer_name ++ codes "/ipp")

-- The options in the order in which they are added.
unfoldable pub options : Bytes → Printreq → List (ℕ × Bytes × Bytes)
options printer_name req =
    (tag_charset, codes "attributes-charset", codes "utf-8")
    ∷ (tag_natulang, codes "attributes-natural-language", codes "en-us")
    ∷ (tag_uri, codes "printer-uri", printer_uri printer_name)
    ∷ (tag_namewolang, codes "requesting-user-name", req.usernm)
    ∷ (tag_namewolang, codes "job-name", req.jobnm)
    ∷ (tag_mimetype, codes "document-format", document_format req.flags)
    ∷ []

unfoldable pub add_options : List (ℕ × Bytes × Bytes) → Bytes
add_options [] = tag_end_of_attr ∷ []
add_options ((tag, name, value) ∷ rest) = add_option tag name value ++ add_options rest

-- `ibuf` up to `icp`.
unfoldable pub ipp_request : ℕ → Bytes → Printreq → Bytes
ipp_request jobid printer_name req =
    1
    ∷ 1
    ∷ (htons op_print_job
        ++ (htonl jobid ++ tag_operation_attr ∷ add_options (options printer_name req)))

-- `IBUFSZ`
abbrev pub ibufsz : ℕ
ibufsz = 512

-- `sizeof(str)`
abbrev pub strsz : ℕ
strsz = 64

-- The part of a turn that fills `ibuf`. The null behind the URI has to fit in `str`; behind the last
-- option the end tag stands in its place. `none` is an overrun, after which C says nothing.
unfoldable pub fill_ibuf : ℕ → Bytes → Printreq → Option Bytes
fill_ibuf jobid printer_name req =
    if ltb strsz (length (printer_uri printer_name) + 1)
    then none
    else if ltb ibufsz (length (ipp_request jobid printer_name req))
    then none
    else some (ipp_request jobid printer_name req)

-- A reader of the options, as RFC 2910 has them: fields behind their lengths, up to the end tag.
abbrev pub ntohs : ℕ → ℕ → ℕ
ntohs hi lo = hi * 2 ^ 8 + lo

read_field : Bytes → Option (Bytes × Bytes)
read_field (hi ∷ lo ∷ rest) = some (take (ntohs hi lo) rest, drop (ntohs hi lo) rest)
read_field _ = none

read_value : ℕ → Bytes → Option (Bytes × Bytes) → Option ((ℕ × Bytes × Bytes) × Bytes)
read_value tag name none = none
read_value tag name (some (value, rest)) = some ((tag, name, value), rest)

read_name : ℕ → Option (Bytes × Bytes) → Option ((ℕ × Bytes × Bytes) × Bytes)
read_name tag none = none
read_name tag (some (name, rest)) = read_value tag name (read_field rest)

pub read_option : Bytes → Option ((ℕ × Bytes × Bytes) × Bytes)
read_option [] = none
read_option (tag ∷ rest) = read_name tag (read_field rest)

read_field-htons :
    (text rest : Bytes)
    → length text < 2 ^ 16
    → read_field (htons (length text) ++ (text ++ rest)) ≡ some (text, rest)
unfolding read_field
read_field-htons text rest h =
    let n : length text / 2 ^ 8 % 2 ^ 8 * 2 ^ 8 + length text % 2 ^ 8 ≡ length text = omega arith in
    rw (n, take-length-append text rest, drop-length-append text rest) refl

pub read_option-add_option :
    (tag : ℕ) (name value rest : Bytes)
    → length name < 2 ^ 16
    → length value < 2 ^ 16
    → read_option (add_option tag name value ++ rest) ≡ some ((tag, name, value), rest)
unfolding read_option add_option read_name read_value
read_option-add_option tag name value rest h k =
    ap (λ t. read_name tag (read_field (htons (length name) ++ t)))
      (append_assoc name (htons (length value) ++ value) rest)
    ∙ ap (read_name tag) (read_field-htons name (htons (length value) ++ (value ++ rest)) h)
    ∙ ap (read_value tag name) (read_field-htons value rest k)

length-add_option :
    (tag : ℕ) (name value : Bytes)
    → length (add_option tag name value) ≡ 5 + length name + length value
unfolding add_option
length-add_option tag name value = omega (arith, length-append name (htons (length value) ++ value))

length-options_uri :
    (printer_name : Bytes)
    → length (codes "http://" ++ (printer_name ++ codes "/ipp")) ≡ 11 + length printer_name
length-options_uri printer_name = omega (arith, length-append printer_name (codes "/ipp"))

length-add_options :
    (tag : ℕ) (name value : Bytes) (rest : List (ℕ × Bytes × Bytes))
    → length (add_options ((tag, name, value) ∷ rest))
      ≡ 5 + length name + length value + length (add_options rest)
unfolding add_options
length-add_options tag name value rest = omega (
  arith,
  length-append (add_option tag name value) (add_options rest),
  length-add_option tag name value,
)

-- The IPP request takes 160 bytes besides the names of the printer, the user and the job and the
-- document format.
pub length-ipp_request :
    (jobid : ℕ) (printer_name : Bytes) (req : Printreq)
    → length (ipp_request jobid printer_name req)
      ≡ 160
        + length printer_name
        + length req.usernm
        + length req.jobnm
        + length (document_format req.flags)
unfolding ipp_request options add_options
length-ipp_request jobid printer_name req = omega (
  arith,
  length-add_option tag_charset (codes "attributes-charset") (codes "utf-8"),
  length-add_option tag_natulang (codes "attributes-natural-language") (codes "en-us"),
  length-add_option tag_uri (codes "printer-uri")
      (codes "http://" ++ (printer_name ++ codes "/ipp")),
  length-append printer_name (codes "/ipp"),
  length-add_option tag_namewolang (codes "requesting-user-name") req.usernm,
  length-add_option tag_namewolang (codes "job-name") req.jobnm,
  length-add_option tag_mimetype (codes "document-format") (document_format req.flags),
  length-append {0} {A = ℕ},
)

-- The options up to the end tag, on fuel.
pub read_options : ℕ → Bytes → Option (List (ℕ × Bytes × Bytes))
read_options zero bytes = none
read_options (suc fuel) [] = none
read_options (suc fuel) (tag ∷ rest) = elim (tag == tag_end_of_attr) [
  | true ↦ some []
  | false ↦ elim (read_option (tag ∷ rest)) [
    | none ↦ none
    | some (option, rest') ↦ elim (read_options fuel rest') [
      | none ↦ none
      | some others ↦ some (option ∷ others)
    ]
  ]
]

-- A text whose length fits its field.
abbrev pub Fits : ℕ × Bytes × Bytes → Type 0
Fits x = (x.0 ≢ tag_end_of_attr) × (length x.1 < 2 ^ 16) × (length x.2 < 2 ^ 16)

-- What `fill_ibuf` returns is the request, and it fits.
pub fill_ibuf_lem :
    (jobid : ℕ) (printer_name : Bytes) (req : Printreq) (b : Bytes)
    → fill_ibuf jobid printer_name req ≡ some b
    → (b ≡ ipp_request jobid printer_name req)
      × (length (printer_uri printer_name) < strsz)
      × (length (ipp_request jobid printer_name req) ≤ ibufsz)
unfolding fill_ibuf
fill_ibuf_lem jobid printer_name req b h = ground arith
