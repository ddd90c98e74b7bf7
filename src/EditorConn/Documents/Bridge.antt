-- ===== src/EditorConn/Documents/Bridge.antt =====
-- ember/editor-conn/src/document.rs: `DocumentBridge`, one mirror for each open document, with the
-- calls that keep the extension host in step (ember/editor-conn/src/exthost.rs). `key` is
-- `UriComponents::key`. A call is a constructor with the arguments that it carries; of an editor that
-- is shown, the constants (options, cursor, view column) are left out.
use darkpyonix_ember.Base.{ℕ, Bool, Option, none, some, List, [], ◌∷◌, find, put, erase, string_Eq}
use darkpyonix_ember.EditorConn.{Result, ok, err, malformed, unknown_document}
use darkpyonix_ember.Editor.Coords.{Range}
use darkpyonix_ember.EditorConn.Documents.{
  DocumentMirror, EditorChange, ModelContentChangedEvent, new, apply, full_range, mark_saved,
}
use Prim.Native.String.{String}

pub record ModelAddedData (U : Type 0) : Type 0 where
  pub uri : U
  pub version_id : ℕ
  pub lines : List (List ℕ)
  pub eol : List ℕ
  pub language_id : String
  pub is_dirty : Bool
  pub encoding : String

pub record TextEditorAddData (U : Type 0) : Type 0 where
  pub id : String
  pub document_uri : U
  pub visible_ranges : List Range

pub data Call (U : Type 0) : Type 0 where
  on_language : String → Call U
  add_document :
      ModelAddedData U → (editors : List (TextEditorAddData U)) → (active : Option String) → Call U
  remove_document : U → Call U
  model_changed : U → ModelContentChangedEvent → (is_dirty : Bool) → Call U
  model_saved : U → Call U
  language_changed : U → String → Call U

-- The documents that are open, by key.
abbrev pub Docs : Type 0 → Type 0
Docs U = List (String × DocumentMirror U)

module _ {U : Type 0} where
  unfoldable pub added_data : DocumentMirror U → ModelAddedData U
  added_data m = record {
    uri = m.uri;
    version_id = m.version;
    lines = m.lines;
    eol = m.eol;
    language_id = m.language_id;
    is_dirty = m.dirty;
    encoding = m.encoding;
  }

module _ {U : Type 0} (key : U → String) where
  unfoldable pub open_document : U → List ℕ → String → Docs U → Docs U × List (Call U)
  open_document uri text language docs =
      let doc = new uri text language in
      (put (key uri) doc docs, on_language language ∷ add_document (added_data doc) [] none ∷ [])

  unfoldable pub open_in_editor :
      U → List ℕ → String → (editor_id : String) → Docs U → Docs U × List (Call U)
  open_in_editor uri text language editor_id docs =
      let doc = new uri text language in
      let editor : TextEditorAddData U = record {
        id = editor_id;
        document_uri = uri;
        visible_ranges = full_range doc ∷ [];
      } in
      (
        put (key uri) doc docs,
        on_language language ∷ add_document (added_data doc) (editor ∷ []) (some editor_id) ∷ [],
      )

  unfoldable pub close : U → Docs U → Docs U × Option (Call U)
  close uri docs = elim (find (key uri) docs) [
    | none ↦ (docs, none)
    | some doc ↦ (erase (key uri) docs, some (remove_document uri))
  ]

  abbrev pub changed :
      String
      → Docs U
      → DocumentMirror U × Result ModelContentChangedEvent
      → Docs U × Result (Call U)
  changed k docs (doc, err e) = (put k doc docs, err e)
  changed k docs (doc, ok event) = (put k doc docs, ok (model_changed doc.uri event doc.dirty))

  unfoldable pub change : U → EditorChange → Docs U → Docs U × Result (Call U)
  change uri edit docs = elim (find (key uri) docs) [
    | none ↦ (docs, err (malformed unknown_document))
    | some doc ↦ changed (key uri) docs (apply edit doc)
  ]

  unfoldable pub saved : U → Docs U → Docs U × Option (Call U)
  saved uri docs = elim (find (key uri) docs) [
    | none ↦ (docs, none)
    | some doc ↦ (put (key uri) (mark_saved doc) docs, some (model_saved doc.uri))
  ]

  unfoldable pub set_language : U → String → Docs U → Docs U × List (Call U)
  set_language uri language docs = elim (find (key uri) docs) [
    | none ↦ (docs, [])
    | some doc ↦ (
      put (key uri) (record doc { language_id = language }) docs,
      on_language language ∷ language_changed doc.uri language ∷ [],
    )
  ]

-- A call of the bridge.
pub data Op (U : Type 0) : Type 0 where
  opening : U → List ℕ → String → Op U
  opening_in_editor : U → List ℕ → String → (editor_id : String) → Op U
  closing saving : U → Op U
  changing : U → EditorChange → Op U
  setting_language : U → String → Op U

abbrev pub some_call : {U : Type 0} → Option (Call U) → List (Call U)
some_call none = []
some_call (some c) = c ∷ []

abbrev pub ok_call : {U : Type 0} → Result (Call U) → List (Call U)
ok_call (ok c) = c ∷ []
ok_call (err e) = []

module _ {U : Type 0} (key : U → String) where
  -- The documents afterwards, and the calls to send.
  unfoldable pub perform : Op U → Docs U → Docs U × List (Call U)
  perform (opening uri text language) docs = open_document key uri text language docs
  perform (opening_in_editor uri text language editor) docs =
      open_in_editor key uri text language editor docs
  perform (closing uri) docs = let r = close key uri docs in (r.0, some_call r.1)
  perform (saving uri) docs = let r = saved key uri docs in (r.0, some_call r.1)
  perform (changing uri edit) docs = let r = change key uri edit docs in (r.0, ok_call r.1)
  perform (setting_language uri language) docs = set_language key uri language docs
