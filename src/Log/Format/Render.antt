-- ===== src/Log/Format/Render.antt =====
-- What a formatter prints for the pattern that it was made of.
use mathlib.Core.List.{append-nil, append_assoc}
use fxk.Base.{ℕ, false, Option, none, some, List, [], ◌∷◌, ◌++◌, ◌≡◌, refl, sym, ◌∙◌, Bytes, ok}
use fxk.Log.Pattern.{
  FormatItem, string, LogFormatter, Piece, literal, item, format_item as lookup_item, date_item,
  item_of, build_items, with_pieces, init,
}
use fxk.Log.Pattern.Scan.{
  Spec, plain, date, Segment, IsText, IsSpec, AreSegments, print, spec_piece, pieces, dates,
  text_pieces, init-print,
}
use fxk.Log.Format.{LogEvent, format_item, format_items, format}

-- The character behind a `%` has an entry in `s_format_items`.
abbrev pub IsKnown : Spec → Type 0
IsKnown (plain c) = (i : FormatItem) × (lookup_item c ≡ some i)
IsKnown (date f) = Unit {0}

abbrev pub AllKnown : List Segment → Type 0
AllKnown [] = Unit {0}
AllKnown (g ∷ gs) = IsKnown g.spec × AllKnown gs

module _ (strftime : ℕ → Bytes → ℕ → Bytes) (event : LogEvent) (formats : Bytes) where
  abbrev pub show_item : Option FormatItem → Bytes
  show_item none = []
  show_item (some i) = format_item strftime i event

  -- What a specifier stands for, where `formats` is the formatter's date format.
  abbrev pub show_spec : Spec → Bytes
  show_spec (plain c) = show_item (lookup_item c)
  show_spec (date f) = format_item strftime (date_item formats) event

  -- The pattern's text with a value in place of each specifier.
  abbrev pub show : List Segment → Bytes → Bytes
  show [] tail = tail
  show (g ∷ gs) tail = g.text ++ (show_spec g.spec ++ show gs tail)

  abbrev IsBuilt : List Piece → Bytes → Type 0
  IsBuilt ps out =
      ((build_items formats ps).1 ≡ false)
      × ((os : Bytes) → format_items strftime os (build_items formats ps).0 event ≡ os ++ out)

  cons-IsBuilt :
      (p : Piece) (i : FormatItem) (ps : List Piece) (out : Bytes)
      → item_of formats p ≡ some i
      → IsBuilt ps out
      → IsBuilt (p ∷ ps) (format_item strftime i event ++ out)
  unfolding build_items format_items
  cons-IsBuilt p i ps out e (f, h) = (
    rw (e, build_items) f,
    λ os. rw (e, build_items) (h (os ++ format_item strftime i event) ∙ rw append_assoc),
  )

  text-IsBuilt :
      (t : Bytes) (ps : List Piece) (out : Bytes)
      → IsBuilt ps out
      → IsBuilt (text_pieces t ++ ps) (t ++ out)
  unfolding item_of format_item
  text-IsBuilt [] ps out h = h
  text-IsBuilt (c ∷ cs) ps out h = cons-IsBuilt (literal (c ∷ cs)) (string (c ∷ cs)) ps out refl h

  spec-IsBuilt :
      (sp : Spec) (ps : List Piece) (out : Bytes)
      → IsSpec sp
      → IsKnown sp
      → IsBuilt ps out
      → IsBuilt (spec_piece sp ∷ ps) (show_spec sp ++ out)
  unfolding item_of
  spec-IsBuilt (plain c) ps out h (i, e) b = rw e (cons-IsBuilt (item c) i ps out (rw h e) b)
  spec-IsBuilt (date f) ps out h k b = cons-IsBuilt (item b'd') (date_item formats) ps out refl b

  print-IsBuilt :
      (gs : List Segment) (tail : Bytes)
      → AreSegments gs
      → AllKnown gs
      → IsBuilt (pieces gs ++ text_pieces tail) (show gs tail)
  unfolding build_items format_items
  print-IsBuilt [] tail h k =
      simp append-nil at (text-IsBuilt tail [] [] (refl, λ os. sym (append-nil os)))
  print-IsBuilt (g ∷ gs) tail h k =
      rw append_assoc
        (text-IsBuilt g.text _ _ (spec-IsBuilt g.spec _ _ h.1 k.0 (print-IsBuilt gs tail h.2 k.1)))

-- Printing undoes the cutting of the pattern. For text and specifiers that all have an entry in
-- the table of items, the formatter has no error, and it prints the pattern's text with each
-- specifier's value in its place; each date is printed by the formats of all the pattern's dates,
-- one behind the other, or by the default where these are empty.
pub format-init :
    (strftime : ℕ → Bytes → ℕ → Bytes) (event : LogEvent) (gs : List Segment) (tail : Bytes)
    → AreSegments gs
    → IsText tail
    → AllKnown gs
    → (f : LogFormatter) × (init (print gs tail) ≡ ok f)
      × (f.error ≡ false)
      × (format strftime f event ≡ show strftime event (dates gs) gs tail)
unfolding format with_pieces
format-init strftime event gs tail h t k =
    let (fine, shows) = print-IsBuilt strftime event (dates gs) gs tail h k in
    (
      record {
        pattern = print gs tail;
        items = (build_items (dates gs) (pieces gs ++ text_pieces tail)).0;
        error = (build_items (dates gs) (pieces gs ++ text_pieces tail)).1;
      },
      init-print gs tail h t,
      fine,
      shows [],
    )
