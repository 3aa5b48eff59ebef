-- ===== src/Config/Tests.antt =====
-- The parser on the file that the repository holds (config.sys) and on others, and its theorems at
-- concrete inputs.
use shmdos.Prelude.{ℕ, ◌≡◌, refl, some, Bool, true, not, ◌&&◌, List, [], ◌∷◌, arith}
use shmdos.Config.Param.{
  Text, SystemConfig, codes, default_config, kstricmp, ktoupper, isalpha, isdigit, isalnum,
  read_digits, str_to_int_ex, process_param,
}
use shmdos.Config.Parser.{char_to_unicode, is_newline, step_in, feed, run, finish_in, parse_file}
use shmdos.Config.Total.{parse_file-total}
use shmdos.Config.Lines.{
  bare, quoted, Line, comment, setting, cut, print_line, print_lines, apply_lines, is_plain,
  is_quotable, All, Every, IsLine,
}
use shmdos.Config.RoundTrip.{parse_file-print_lines, parse_file-cut}

abbrev config_sys : Text
config_sys =
    codes
      "kernel = kernel.exe\r\nbootload = libpci.dll\r\nscreenmode =\r\nbootlog =\r\nfix_frame_buffer_mtrr = 1"

config_sys_run :
    parse_file default_config config_sys
    ≡ some (record default_config { boot_modules = codes "libpci.dll" ∷ [] })
unfolding parse_file run feed step_in finish_in char_to_unicode isalnum isalpha isdigit
    process_param kstricmp ktoupper
config_sys_run = refl

modes_run :
    parse_file default_config
      (codes ";x\nScreenMode=\"1024x768\"\nbootload=a.dll, \"b c.dll\"\nBOOTLOG=log.txt\n")
    ≡ some (record default_config {
      boot_modules = codes "a.dll" ∷ codes "b c.dll" ∷ [];
      screen_width = 1024;
      screen_height = 768;
      boot_log_file_name = codes "log.txt";
    })
unfolding parse_file run feed step_in finish_in char_to_unicode isalnum isalpha isdigit
    process_param kstricmp ktoupper
modes_run = refl

-- 2^32 + 5
wrap_run : str_to_int_ex (codes "4294967301x") ≡ some (5, codes "x")
unfolding str_to_int_ex read_digits isdigit
wrap_run = refl

abbrev lines : List Line
lines =
    comment (codes "x")
    ∷ setting (codes "bootload") [] (codes " ") (bare (codes "a") ∷ []) (quoted (codes "b c"))
    ∷ cut (codes "bootlog") [] [] []
    ∷ []

parse_file-total_example : (c : SystemConfig) × (parse_file default_config config_sys ≡ some c)
parse_file-total_example = parse_file-total default_config config_sys

abbrev every : (ℕ → Bool) → Text → Bool
every test [] = true
every test (c ∷ t) = test c && every test t

Every-every : (test : ℕ → Bool) (t : Text) → every test t ≡ true → Every test t
Every-every test [] e = tt
Every-every test (c ∷ t) e = (ground arith, Every-every test t (ground arith))

lines-IsLine : All IsLine lines
unfolding isalnum isalpha isdigit is_plain is_quotable
lines-IsLine = (
  Every-every (λ c. not (is_newline c)) (codes "x") refl,
  (
    (
      (refl, Every-every isalnum (codes "ootload") refl),
      tt,
      (refl, tt),
      ((refl, tt), tt),
      Every-every is_quotable (codes "b c") refl,
    ),
    (((refl, Every-every isalnum (codes "ootlog") refl), tt, tt, tt), tt),
  ),
)

parse_file-print_lines_example :
    parse_file default_config (print_lines lines) ≡ some (apply_lines default_config lines)
parse_file-print_lines_example = parse_file-print_lines default_config lines lines-IsLine

parse_file-cut_example :
    parse_file default_config
      (print_line (cut (codes "bootload") (codes " ") [] (bare (codes "a") ∷ [])))
    ≡ some default_config
unfolding isalnum isalpha isdigit
parse_file-cut_example =
    parse_file-cut default_config (codes " ") [] (bare (codes "a") ∷ []) (refl, tt) tt
      ((refl, tt), tt)
