-- ===== src/Config/Parser.antt =====
-- `parseFile` of uefi/config.cpp. A character that a state leaves unread (`isRead = false`) is given to
-- the next state.
use shmdos.Prelude.{
  ℕ, zero, suc, ◌+◌, ◌-◌, ◌^◌, ◌==◌, ltb, if◌then◌else◌, Bool, true, false, ◌||◌, List, [], ◌∷◌,
  ◌++◌, Option, none, some,
}
use shmdos.Config.Param.{Text, SystemConfig, isalnum, process_param}

-- `charToUnicode`: the switch to code points is computed and dropped, and the sign of the `char` goes
-- into the 16 bits of the result.
unfoldable pub char_to_unicode : ℕ → ℕ
char_to_unicode c = if ltb c 0x80 then c else 2 ^ 16 + c - 0x100

-- The numbers 0 to 8 of the source, in their order.
pub data Mode : Type 0 where
  line_start : Mode
  skip_line : Mode
  in_name : Mode
  before_equals : Mode
  before_value : Mode
  in_quotes : Mode
  in_value : Mode
  after_value : Mode
  line_done : Mode

-- The vector of values never is empty: `back` is its last element, `values` holds those before.
pub record Parser : Type 0 where
  pub mode : Mode
  pub name : Text
  pub values : List Text
  pub back : Text
  pub config : SystemConfig

abbrev pub all_values : Parser → List Text
all_values p = p.values ++ p.back ∷ []

-- The next state, and whether the character has been read.
abbrev pub go : Parser → Mode → Parser × Bool
go p m = (record p { mode = m }, true)

abbrev pub retry : Parser → Mode → Parser × Bool
retry p m = (record p { mode = m }, false)

abbrev pub clear_values : Parser → Parser
clear_values p = record p { values = []; back = [] }

abbrev pub push_value : Parser → Parser
push_value p = record p { values = all_values p; back = [] }

abbrev pub add_char : Parser → ℕ → Parser
add_char p c = record p { back = p.back ++ char_to_unicode c ∷ [] }

abbrev pub add_name : Parser → ℕ → Parser
add_name p c = record p { name = p.name ++ char_to_unicode c ∷ [] }

abbrev pub is_newline : ℕ → Bool
is_newline c = c == b'\r' || c == b'\n'

abbrev pub is_blank : ℕ → Bool
is_blank c = c == b' ' || c == b'\t'

unfoldable pub step_in : Mode → Parser → ℕ → Parser × Bool
step_in line_start p c =
    if isalnum c
    then go (add_name p c) in_name
    else if c == b';'
    then go p skip_line
    else go p line_start
step_in skip_line p c =
    if is_newline c then go (record (clear_values p) { name = [] }) line_start else go p skip_line
step_in in_name p c =
    if isalnum c
    then go (add_name p c) in_name
    else if is_blank c
    then go p before_equals
    else if c == b'='
    then go p before_value
    else retry p skip_line
step_in before_equals p c =
    if c == b'='
    then go p before_value
    else if is_blank c
    then go p before_equals
    else retry p skip_line
step_in before_value p c =
    if isalnum c
    then retry p in_value
    else if c == b'"'
    then go p in_quotes
    else if is_blank c
    then go p before_value
    else if is_newline c
    then retry (clear_values p) line_done
    else retry p skip_line
step_in in_quotes p c =
    if is_newline c
    then retry p skip_line
    else if c == b'"'
    then go (push_value p) after_value
    else go (add_char p c) in_quotes
step_in in_value p c =
    if is_newline c
    then retry (push_value p) line_done
    else if c == b','
    then go (push_value p) before_value
    else if is_blank c
    then go (push_value p) after_value
    else go (add_char p c) in_value
step_in after_value p c =
    if is_newline c
    then retry p line_done
    else if is_blank c
    then go p after_value
    else if c == b','
    then go p before_value
    else retry p skip_line
step_in line_done p c =
    retry (record p { config = process_param p.config p.name (all_values p) }) skip_line

abbrev pub step : Parser → ℕ → Parser × Bool
step p = step_in p.mode p

-- The rounds of the loop on one character; `none` says that they did not suffice.
unfoldable pub feed : ℕ → Parser → ℕ → Option Parser
feed zero p c = none
feed (suc f) p c =
    let rest = feed f (step p c).0 c in if (step p c).1 then some (step p c).0 else rest

abbrev pub rounds : ℕ
rounds = 4

unfoldable pub run : Parser → Text → Option Parser
run p [] = some p
run p (c ∷ s) = elim (feed rounds p c) [ none ↦ none | some q ↦ run q s ]

abbrev pub initial : SystemConfig → Parser
initial config = record { mode = line_start; name = []; values = []; back = []; config = config }

-- What stands behind the loop.
unfoldable pub finish_in : Mode → Parser → SystemConfig
finish_in in_value p = process_param p.config p.name (all_values p)
finish_in after_value p = process_param p.config p.name (all_values p)
finish_in _ p = p.config

abbrev pub finish : Parser → SystemConfig
finish p = finish_in p.mode p

unfoldable pub parse_file : SystemConfig → Text → Option SystemConfig
parse_file config file = elim (run (initial config) file) [ none ↦ none | some p ↦ some (finish p) ]

-- `load`, over the file that the boot services read, if there is one.
unfoldable pub load : SystemConfig → Option Text → Option (SystemConfig × Bool)
load config none = some (config, false)
load config (some file) = elim (parse_file config file) [ none ↦ none | some c ↦ some (c, true) ]
