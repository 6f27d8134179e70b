-- ===== src/Log/Pattern.antt =====
-- `LogFormatter::init`: the state machine that cuts a pattern into pieces, and the items that it
-- makes of them.
pub mod Scan
use fxk.Base.{
  ℕ, Bool, true, false, Option, none, some, List, [], ◌∷◌, ◌++◌, ◌==◌, if◌then◌else◌, Bytes, codes,
  Result, ok, err, out_of_bounds, ◌>>=◌,
}

-- `std::pair<int, std::string>`: 0 is text as it stands, 1 is a character behind a `%`.
pub data Piece : Type 0 where
  literal : Bytes → Piece
  item : ℕ → Piece

-- Where the loops stand: at the head of the outer loop with `parsing_string` true or false, at
-- the test behind a `%d`, or in the inner loop over a date format.
pub data Mode : Type 0 where
  in_string in_item after_date in_braces : Mode

pub record Scanner : Type 0 where
  pub patterns : List Piece
  pub tmp : Bytes
  pub dateformat : Bytes

abbrev pub start : Scanner
start = record { patterns = []; tmp = []; dateformat = [] }

-- `if (!tmp.empty()) patterns.push_back(make_pair(0, tmp)); tmp.clear();`
pub push_tmp : Scanner → Bytes → Scanner
push_tmp s [] = record s { tmp = [] }
push_tmp s (c ∷ cs) = record s { patterns = s.patterns ++ literal (c ∷ cs) ∷ []; tmp = [] }

abbrev pub push_item : Scanner → ℕ → Scanner
push_item s c = record s { patterns = s.patterns ++ item c ∷ [] }

-- One character in the outer loop.
step_string : Scanner → ℕ → Mode × Scanner
unfolding push_tmp
step_string s c =
    if c == b'%'
    then (in_item, push_tmp s s.tmp)
    else (in_string, record s { tmp = s.tmp ++ c ∷ [] })

step_item : Scanner → ℕ → Mode × Scanner
step_item s c =
    if c == b'%'
    then (in_string, push_item s c)
    else if c == b'd'
    then (after_date, push_item s c)
    else (in_string, push_item s c)

unfoldable pub step : Mode → Scanner → ℕ → Mode × Scanner
unfolding step_string step_item
step in_string s c = step_string s c
step in_item s c = step_item s c
step after_date s c = if c == b'{' then (in_braces, s) else step_string s c
step in_braces s c =
    if c == b'}'
    then (in_string, s)
    else (in_braces, record s { dateformat = s.dateformat ++ c ∷ [] })

unfoldable pub scan : Mode → Scanner → Bytes → Mode × Scanner
scan m s [] = (m, s)
scan m s (c ∷ cs) = let (m', s') = step m s c in scan m' s' cs

-- Past the last character. Behind a last `%d` the test for `{` fails as there is no character, so
-- the code steps once more and reads behind the string's final NUL. In braces it reads that NUL,
-- and reports the missing `}`: the result is `none`.
pub finish : Mode → Scanner → Result (Option Scanner)
finish in_string s = ok (some (push_tmp s s.tmp))
finish in_item s = ok (some (push_tmp s s.tmp))
finish after_date s = err out_of_bounds
finish in_braces s = ok none

pub data FormatItem : Type 0 where
  message level elapse logger_name thread_id fiber_id thread_name : FormatItem
  file_name line newline tab percent_sign : FormatItem
  date_time : Bytes → FormatItem
  string : Bytes → FormatItem

-- The keys of `s_format_items`.
unfoldable pub format_item : ℕ → Option FormatItem
format_item c =
    if c == b'm'
    then some message
    else if c == b'p'
    then some level
    else if c == b'c'
    then some logger_name
    else if c == b'r'
    then some elapse
    else if c == b'f'
    then some file_name
    else if c == b'l'
    then some line
    else if c == b't'
    then some thread_id
    else if c == b'F'
    then some fiber_id
    else if c == b'N'
    then some thread_name
    else if c == b'%'
    then some percent_sign
    else if c == b'T'
    then some tab
    else if c == b'n'
    then some newline
    else none

abbrev pub default_dateformat : Bytes
default_dateformat = codes "%Y-%m-%d %H:%M:%S"

-- The constructor of `DateTimeFormatItem`.
unfoldable pub date_item : Bytes → FormatItem
date_item [] = date_time default_dateformat
date_item (c ∷ cs) = date_time (c ∷ cs)

-- One piece in the loop over `patterns`: `none` is an unknown item.
unfoldable pub item_of : Bytes → Piece → Option FormatItem
unfolding format_item date_item
item_of dateformat (literal s) = some (string s)
item_of dateformat (item c) = if c == b'd' then some (date_item dateformat) else format_item c

-- The loop stops at the first unknown item, and keeps those before it.
unfoldable pub build_items : Bytes → List Piece → List FormatItem × Bool
build_items dateformat [] = ([], false)
build_items dateformat (p ∷ ps) =
    let (items, error) = build_items dateformat ps in
    elim (item_of dateformat p) [ none ↦ ([], true) | some i ↦ (i ∷ items, error) ]

pub record LogFormatter : Type 0 where
  pub pattern : Bytes
  pub items : List FormatItem
  pub error : Bool

unfoldable pub with_pieces : Bytes → Option Scanner → LogFormatter
with_pieces pattern none = record { pattern = pattern; items = []; error = true }
with_pieces pattern (some s) =
    let (items, error) = build_items s.dateformat s.patterns in
    record { pattern = pattern; items = items; error = error }

unfoldable pub init : Bytes → Result LogFormatter
unfolding scan step finish push_tmp with_pieces build_items item_of
init pattern = do
  let (m, s) = scan in_string start pattern
  pieces ← finish m s
  ok (with_pieces pattern pieces)
