-- ===== src/Printd/Config/Examples.antt =====
-- The configuration file of apue.3e/printer/util.c with the lines of the book, and one more.
use play_apue.Prelude.{◌≡◌, refl, some, [], ◌∷◌, ◌++◌, arith, codes}
use play_apue.Printd.Config.{
  fgets, skip_white, word, scan_word, scan_line, scan_lines, scan_configfile, get_printserver,
  get_printaddr, getaddrlist,
}
use play_apue.Printd.Config.Lookup.{Line, IsLine, text, lookup, scan_configfile-eq-lookup}

abbrev server_line : Line
server_line = record {
  lead = [];
  keyword = codes "printserver";
  gap = codes " ";
  value = codes "fujin";
  tail = codes " # the host";
}

abbrev printer_line : Line
printer_line = record {
  lead = codes "  ";
  keyword = codes "printer";
  gap = codes " ";
  value = codes "hp3000";
  tail = [];
}

server_line-IsLine : IsLine server_line
server_line-IsLine = record {
  white_lead = tt;
  white_gap = (refl, tt);
  begins_gap = refl;
  solid_keyword = grind arith;
  solid_value = grind arith;
  begins_tail = refl;
  some_keyword = omega arith;
  some_value = omega arith;
  short_keyword = omega arith;
  one_line = omega arith;
  no_null = omega arith;
  short = omega arith;
}

printer_line-IsLine : IsLine printer_line
printer_line-IsLine = record {
  white_lead = (refl, (refl, tt));
  white_gap = (refl, tt);
  begins_gap = refl;
  solid_keyword = grind arith;
  solid_value = grind arith;
  begins_tail = refl;
  some_keyword = omega arith;
  some_value = omega arith;
  short_keyword = omega arith;
  one_line = omega arith;
  no_null = omega arith;
  short = omega arith;
}

scan_configfile-eq-lookup_example :
    scan_configfile (codes "printer") (text (server_line ∷ printer_line ∷ []))
    ≡ lookup (codes "printer") (server_line ∷ printer_line ∷ [])
scan_configfile-eq-lookup_example =
    scan_configfile-eq-lookup (codes "printer") (server_line ∷ printer_line ∷ [])
      (server_line-IsLine, (printer_line-IsLine, tt))

server_found : get_printserver (text (server_line ∷ printer_line ∷ [])) ≡ some (codes "fujin")
unfolding get_printserver scan_configfile scan_lines scan_line scan_word word skip_white fgets
server_found = refl

address_found :
    get_printaddr (λ host service. some (host ++ service)) (text (server_line ∷ printer_line ∷ []))
    ≡ some (codes "hp3000ipp")
unfolding get_printaddr getaddrlist scan_configfile scan_lines scan_line scan_word word skip_white
    fgets
address_found = refl

-- A keyword of more than 15 bytes is cut in two.
long_keyword :
    scan_configfile (codes "printserveralte") (codes "printserveralternate fujin" ++ 10 ∷ [])
    ≡ some (codes "rnate")
unfolding scan_configfile scan_lines scan_line scan_word word skip_white fgets
long_keyword = refl
