-- ===== src/Log/Pattern/Scan.antt =====
-- Patterns written as text and specifiers, and what the scanner makes of them.
use mathlib.Core.List.{append-nil, append_assoc}
use fxk.Base.{
  ℕ, true, false, some, List, [], ◌∷◌, ◌++◌, ◌≡◌, refl, ap, ◌∙◌, arith, ◌==◌, All, Bytes, ok, err,
  out_of_bounds, ◌>>=◌,
}
use fxk.Log.Pattern.{
  Piece, literal, item, Mode, in_string, in_item, after_date, in_braces, Scanner, start, push_tmp,
  push_item, step, scan, finish, with_pieces, init,
}

-- `%c` for a character other than `d`, or `%d{format}`.
pub data Spec : Type 0 where
  plain : ℕ → Spec
  date : Bytes → Spec

-- Text, perhaps empty, and the specifier behind it.
pub record Segment : Type 0 where
  pub text : Bytes
  pub spec : Spec

abbrev pub IsText : Bytes → Type 0
IsText = All (λ c. (c == b'%') ≡ false)

abbrev pub IsDateFormat : Bytes → Type 0
IsDateFormat = All (λ c. (c == b'}') ≡ false)

abbrev pub IsSpec : Spec → Type 0
IsSpec (plain c) = (c == b'd') ≡ false
IsSpec (date f) = IsDateFormat f

abbrev pub AreSegments : List Segment → Type 0
AreSegments [] = Unit {0}
AreSegments (g ∷ gs) = IsText g.text × IsSpec g.spec × AreSegments gs

abbrev pub print_spec : Spec → Bytes → Bytes
print_spec (plain c) rest = b'%' ∷ c ∷ rest
print_spec (date f) rest = b'%' ∷ b'd' ∷ b'{' ∷ (f ++ (b'}' ∷ rest))

-- The segments, and what follows them.
abbrev pub print : List Segment → Bytes → Bytes
print [] rest = rest
print (g ∷ gs) rest = g.text ++ print_spec g.spec (print gs rest)

abbrev pub text_pieces : Bytes → List Piece
text_pieces [] = []
text_pieces (c ∷ cs) = literal (c ∷ cs) ∷ []

abbrev pub spec_piece : Spec → Piece
spec_piece (plain c) = item c
spec_piece (date f) = item b'd'

abbrev pub pieces : List Segment → List Piece
pieces [] = []
pieces (g ∷ gs) = text_pieces g.text ++ (spec_piece g.spec ∷ pieces gs)

abbrev pub spec_date : Spec → Bytes
spec_date (plain c) = []
spec_date (date f) = f

-- All the date formats of a pattern, one behind the other.
abbrev pub dates : List Segment → Bytes
dates [] = []
dates (g ∷ gs) = spec_date g.spec ++ dates gs

scan-step :
    (m m' : Mode) (s s' : Scanner) (c : ℕ) (cs : Bytes)
    → step m s c ≡ (m', s')
    → scan m s (c ∷ cs) ≡ scan m' s' cs
unfolding scan
scan-step m m' s s' c cs e = ap (λ (r : Mode × Scanner). scan r.0 r.1 cs) e

step_text :
    (s : Scanner) (c : ℕ)
    → (c == b'%') ≡ false
    → step in_string s c ≡ (in_string, record s { tmp = s.tmp ++ c ∷ [] })
unfolding step
step_text s c h = ground arith

step_braces :
    (s : Scanner) (c : ℕ)
    → (c == b'}') ≡ false
    → step in_braces s c ≡ (in_braces, record s { dateformat = s.dateformat ++ c ∷ [] })
unfolding step
step_braces s c h = ground arith

step_plain :
    (s : Scanner) (c : ℕ) → (c == b'd') ≡ false → step in_item s c ≡ (in_string, push_item s c)
unfolding step
step_plain s c h = ground arith

scan_text :
    (s : Scanner) (t rest : Bytes)
    → IsText t
    → scan in_string s (t ++ rest) ≡ scan in_string (record s { tmp = s.tmp ++ t }) rest
scan_text s [] rest h = rw append-nil
scan_text s (c ∷ cs) rest h =
    scan-step in_string _ s _ c (cs ++ rest) (step_text s c h.0)
    ∙ scan_text (record s { tmp = s.tmp ++ c ∷ [] }) cs rest h.1
    ∙ rw append_assoc

scan_braces :
    (s : Scanner) (f rest : Bytes)
    → IsDateFormat f
    → scan in_braces s (f ++ rest)
      ≡ scan in_braces (record s { dateformat = s.dateformat ++ f }) rest
scan_braces s [] rest h = rw append-nil
scan_braces s (c ∷ cs) rest h =
    scan-step in_braces _ s _ c (cs ++ rest) (step_braces s c h.0)
    ∙ scan_braces (record s { dateformat = s.dateformat ++ c ∷ [] }) cs rest h.1
    ∙ rw append_assoc

push_tmp_lem :
    (s : Scanner) (t : Bytes)
    → push_tmp s t ≡ record s { patterns = s.patterns ++ text_pieces t; tmp = [] }
unfolding push_tmp
push_tmp_lem s [] = rw append-nil
push_tmp_lem s (c ∷ cs) = refl

abbrev after_spec : Scanner → Spec → Scanner
after_spec s sp = record {
  patterns = (s.patterns ++ text_pieces s.tmp) ++ spec_piece sp ∷ [];
  tmp = [];
  dateformat = s.dateformat ++ spec_date sp;
}

scan_spec :
    (s : Scanner) (sp : Spec) (rest : Bytes)
    → IsSpec sp
    → scan in_string s (print_spec sp rest) ≡ scan in_string (after_spec s sp) rest
unfolding scan step
scan_spec s (plain c) rest h =
    scan-step in_item _ (push_tmp s s.tmp) _ c rest (step_plain (push_tmp s s.tmp) c h)
    ∙ rw push_tmp_lem (rw append-nil)
scan_spec s (date f) rest h =
    scan_braces (push_item (push_tmp s s.tmp) b'd') f (b'}' ∷ rest) h ∙ rw push_tmp_lem

abbrev after_segments : Scanner → List Segment → Scanner
after_segments s gs = record {
  patterns = s.patterns ++ pieces gs;
  tmp = [];
  dateformat = s.dateformat ++ dates gs;
}

scan-print :
    (s : Scanner) (gs : List Segment) (rest : Bytes)
    → s.tmp ≡ []
    → AreSegments gs
    → scan in_string s (print gs rest) ≡ scan in_string (after_segments s gs) rest
scan-print s [] rest e h = rw (append-nil, append-nil) (rw (← e))
scan-print s (g ∷ gs) rest e h =
    scan_text s g.text (print_spec g.spec (print gs rest)) h.0
    ∙ scan_spec (record s { tmp = s.tmp ++ g.text }) g.spec (print gs rest) h.1
    ∙ scan-print (after_spec (record s { tmp = s.tmp ++ g.text }) g.spec) gs rest refl h.2
    ∙ rw e (simp append_assoc)

-- The scanner behind the segments and the text that follows them.
scan_segments :
    (gs : List Segment) (tail rest : Bytes)
    → AreSegments gs
    → IsText tail
    → scan in_string start (print gs (tail ++ rest))
      ≡ scan in_string (record { patterns = pieces gs; tmp = tail; dateformat = dates gs }) rest
scan_segments gs tail rest h k =
    scan-print start gs (tail ++ rest) refl h ∙ scan_text (after_segments start gs) tail rest k

init-scan :
    (p : Bytes) (m : Mode) (s : Scanner)
    → scan in_string start p ≡ (m, s)
    → init p ≡ (finish m s >>= λ q. ok (with_pieces p q))
unfolding init
init-scan p m s e = ap (λ (r : Mode × Scanner). finish r.0 r.1 >>= λ q. ok (with_pieces p q)) e

unclosed :
    (s : Scanner) (f : Bytes)
    → IsDateFormat f
    → scan in_string s (b'%' ∷ b'd' ∷ b'{' ∷ f) ≡ (
      in_braces,
      record (push_item (push_tmp s s.tmp) b'd') {
        dateformat = (push_tmp s s.tmp).dateformat ++ f;
      },
    )
unfolding scan step
unclosed s f d = rw append-nil at (scan_braces (push_item (push_tmp s s.tmp) b'd') f [] d)

-- A pattern made of text and specifiers, with text behind the last one, is cut into exactly the
-- texts that are not empty and the specifiers, in order; the date format is that of all its `%d`
-- together.
pub init-print :
    (gs : List Segment) (tail : Bytes)
    → AreSegments gs
    → IsText tail
    → init (print gs tail)
      ≡ ok (
          with_pieces (print gs tail) (
            some (record {
              patterns = pieces gs ++ text_pieces tail;
              tmp = [];
              dateformat = dates gs;
            })))
unfolding finish scan
init-print gs tail h k =
    init-scan _ _ _ (rw append-nil at (scan_segments gs tail [] h k)) ∙ rw push_tmp_lem

-- A pattern that ends in `%d`, with no braces behind it, makes `init` read behind the string's
-- final NUL, whatever text and specifiers stand in front of it.
pub init-print_date :
    (gs : List Segment) (tail : Bytes)
    → AreSegments gs
    → IsText tail
    → init (print gs (tail ++ (b'%' ∷ b'd' ∷ []))) ≡ err out_of_bounds
unfolding finish scan step
init-print_date gs tail h k =
    init-scan (print gs (tail ++ (b'%' ∷ b'd' ∷ []))) after_date
      (push_item
        (push_tmp (record { patterns = pieces gs; tmp = tail; dateformat = dates gs }) tail) b'd')
      (scan_segments gs tail (b'%' ∷ b'd' ∷ []) h k)

-- A date format that is never closed is reported: the formatter has its error flag and no items.
pub init-print_unclosed :
    (gs : List Segment) (tail f : Bytes)
    → AreSegments gs
    → IsText tail
    → IsDateFormat f
    → init (print gs (tail ++ (b'%' ∷ b'd' ∷ b'{' ∷ f)))
      ≡ ok (record {
        pattern = print gs (tail ++ (b'%' ∷ b'd' ∷ b'{' ∷ f));
        items = [];
        error = true;
      })
unfolding finish with_pieces
init-print_unclosed gs tail f h k d =
    init-scan (print gs (tail ++ (b'%' ∷ b'd' ∷ b'{' ∷ f))) in_braces _ (
      scan_segments gs tail (b'%' ∷ b'd' ∷ b'{' ∷ f) h k
      ∙ unclosed (record { patterns = pieces gs; tmp = tail; dateformat = dates gs }) f d)
