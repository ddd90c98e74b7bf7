-- ===== src/EditorConn/Documents/Tests.antt =====
-- Edits of a small document. A URI is a number.
use Prim.Native.String.{String}
use darkpyonix_ember.Base.{
  ℕ, ◌+◌, ◌^◌, ◌<◌, ◌≡◌, refl, subst, Bool, true, false, none, some, List, [], ◌∷◌, arith,
  string_Eq, if◌then◌else◌,
}
use darkpyonix_ember.EditorConn.{ok, err, malformed, overlapping_edits}
use darkpyonix_ember.Editor.Coords.{Range, utf16_len, utf16_count, split_lines, split_from}
use darkpyonix_ember.EditorConn.Documents.{
  TextEdit, EditorChange, normal, ModelContentChange, DocumentMirror, new, text, apply, apply_one,
  apply_each, finish, check, range_is_valid, all_valid, no_overlap, sort_edits, insert_edit,
  next_version, byte_index, line_at, index_in, index_from, offset_at, units_before, replaced_lines,
  splice, push_suffix, slice_to, slice_from, join, detect_eol,
}
use darkpyonix_ember.EditorConn.Documents.Atomic.{Answers, apply-Answers}
use darkpyonix_ember.EditorConn.Documents.Bridge.{
  Docs, Call, changing, opening, open_document, perform,
}
use darkpyonix_ember.EditorConn.Documents.Follows.{View, Follows, hear_all, perform-Follows}
use darkpyonix_ember.EditorConn.Documents.Text.{Spliced, apply_one-Spliced}

-- "ab\nc".
abbrev document : DocumentMirror ℕ
document = new 0 (97 ∷ 98 ∷ 10 ∷ 99 ∷ []) "text"

abbrev one_line : ℕ → ℕ → ℕ → ℕ → Range
one_line l c m d = record {
  start_line_number = l;
  start_column = c;
  end_line_number = m;
  end_column = d;
}

-- "X\r\n" for the end of the first line.
abbrev broken : TextEdit
broken = record { range = one_line 1 2 2 1; text = 88 ∷ 13 ∷ 10 ∷ [] }

-- "Y" before everything.
abbrev first : TextEdit
first = record { range = one_line 1 1 1 1; text = 89 ∷ [] }

abbrev both : EditorChange
both = record { edits = first ∷ broken ∷ []; reason = normal; version = none }

abbrev twice : EditorChange
twice = record { edits = broken ∷ broken ∷ []; reason = normal; version = none }

two_edits : text (apply both document).0 ≡ 89 ∷ 97 ∷ 88 ∷ 10 ∷ 99 ∷ []
unfolding text apply check all_valid range_is_valid no_overlap sort_edits insert_edit next_version
    byte_index line_at index_in index_from apply_each apply_one offset_at units_before finish
    replaced_lines splice push_suffix slice_to slice_from join new split_lines split_from detect_eol
    utf16_len utf16_count
two_edits = refl

refused : (apply twice document).1 ≡ err (malformed overlapping_edits)
unfolding apply check all_valid range_is_valid no_overlap sort_edits insert_edit byte_index line_at
    index_in index_from new split_lines split_from
refused = refl

broken_valid : range_is_valid document.lines broken.range ≡ ok tt
unfolding range_is_valid byte_index line_at index_in index_from new split_lines split_from
broken_valid = refl

starts_at_one : document.version + 1 < 2 ^ 64
unfolding new
starts_at_one = omega arith

apply-Answers_example : Answers both document (apply both document).0 (apply both document).1
apply-Answers_example = apply-Answers both document starts_at_one

apply_one-Spliced_example :
    (change : ModelContentChange) × ((apply_one broken.range broken.text document).1 ≡ ok change)
    × Spliced
        (text document)
        (text (apply_one broken.range broken.text document).0)
        change.range_offset
        change.range_length
        change.text
unfolding text join new split_lines split_from detect_eol utf16_count
apply_one-Spliced_example = apply_one-Spliced broken document broken_valid (omega arith)

-- A URI and its key.
abbrev key : ℕ → String
key u = "a"

abbrev no_documents : View
no_documents k = none

nothing-Follows : Follows {U = ℕ} key [] no_documents
nothing-Follows = record { agrees = λ k. refl; keyed = λ k d h. absurd cc }

abbrev opened : Docs ℕ × List (Call ℕ)
opened = perform key (opening 0 (97 ∷ 98 ∷ 10 ∷ 99 ∷ []) "text") []

opened-Follows : Follows key opened.0 (hear_all key opened.1 no_documents)
opened-Follows =
    perform-Follows key (opening 0 (97 ∷ 98 ∷ 10 ∷ 99 ∷ []) "text") [] no_documents nothing-Follows
      (λ k d h. absurd cc)

some_eq : {A : Type 0} {a b : A} → some a ≡ some b → a ≡ b
some_eq e = cc

at_one :
    (b : Bool) (d : DocumentMirror ℕ)
    → (if b then some document else none) ≡ some d
    → d.version + 1 < 2 ^ 64
unfolding new
at_one true d h = subst (λ x. x.version + 1 < 2 ^ 64) (some_eq h) (omega arith)
at_one false d h = absurd cc

perform-Follows_example :
    Follows key
      (perform key (changing 0 both) opened.0).0
      (hear_all key (perform key (changing 0 both) opened.0).1 (hear_all key opened.1 no_documents))
unfolding perform open_document
perform-Follows_example =
    perform-Follows key (changing 0 both) opened.0 _ opened-Follows
      (λ k d h. at_one (string_Eq.beq "a" k) d h)
