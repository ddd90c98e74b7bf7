-- ===== src/EditorConn/Documents/Follows.antt =====
-- The extension host, told by the calls alone, knows what the bridge knows of each document: which
-- are open, at which version, whether they are dirty, and in which language.
use darkpyonix_ember.Base.{
  ℕ, ◌+◌, ◌^◌, ◌<◌, ◌≡◌, refl, sym, ap, ap₂, ◌∙◌, subst, Bool, true, false, Option, none, some,
  List, [], ◌∷◌, find, put, erase, find-put, find-erase, string_Eq, beq-eq, if◌then◌else◌, inl, inr,
  Option-cases,
}
use darkpyonix_ember.EditorConn.{Result, ok, err}
use darkpyonix_ember.EditorConn.Documents.{
  DocumentMirror, EditorChange, ModelContentChangedEvent, new, apply, mark_saved,
}
use darkpyonix_ember.EditorConn.Documents.Atomic.{Answers, apply-Answers}
use darkpyonix_ember.EditorConn.Documents.Bridge.{
  Call, on_language, add_document, remove_document, model_changed, model_saved, language_changed,
  added_data, Docs, open_document, open_in_editor, close, changed, change, saved, set_language, Op,
  opening, opening_in_editor, closing, saving, changing, setting_language, ok_call, perform,
}
use Prim.Native.String.{String}

pub record Known : Type 0 where
  pub version : ℕ
  pub is_dirty : Bool
  pub language_id : String

-- What is known of the document with a key.
abbrev pub View : Type 0
View = String → Option Known

abbrev pub amend : (Known → Known) → Option Known → Option Known
amend f none = none
amend f (some s) = some (f s)

unfoldable pub alter : String → (Option Known → Option Known) → View → View
alter at f v k = if string_Eq.beq at k then f (v k) else v k

unfoldable pub hear : {U : Type 0} → (U → String) → Call U → View → View
hear key (on_language language) v = v
hear key (add_document d editors active) v =
    alter (key d.uri)
      (λ o.
        some
          (record { version = d.version_id; is_dirty = d.is_dirty; language_id = d.language_id }))
      v
hear key (remove_document uri) v = alter (key uri) (λ o. none) v
hear key (model_changed uri event dirty) v =
    alter (key uri) (amend (λ s. record s { version = event.version_id; is_dirty = dirty })) v
hear key (model_saved uri) v = alter (key uri) (amend (λ s. record s { is_dirty = false })) v
hear key (language_changed uri language) v =
    alter (key uri) (amend (λ s. record s { language_id = language })) v

unfoldable pub hear_all : {U : Type 0} → (U → String) → List (Call U) → View → View
hear_all key [] v = v
hear_all key (c ∷ cs) v = hear_all key cs (hear key c v)

module _ {U : Type 0} where
  abbrev pub known_of : DocumentMirror U → Known
  known_of d = record { version = d.version; is_dirty = d.dirty; language_id = d.language_id }

  abbrev pub known : Option (DocumentMirror U) → Option Known
  known none = none
  known (some d) = some (known_of d)

  known_if :
      (b : Bool) (x y : Option (DocumentMirror U))
      → known (if b then x else y) ≡ (if b then known x else known y)
  known_if true x y = refl
  known_if false x y = refl

same_if : (b : Bool) (o : Option Known) → (if b then o else o) ≡ o
same_if true o = refl
same_if false o = refl

module _ {U : Type 0} (key : U → String) where
  -- The view agrees with the documents, and these stand under their keys.
  pub record Follows (docs : Docs U) (v : View) : Type 0 where
    pub agrees : (k : String) → v k ≡ known (find k docs)
    pub keyed : (k : String) (d : DocumentMirror U) → find k docs ≡ some d → key d.uri ≡ k

  alter_if :
      (at k : String) (f : Option Known → Option Known) (v : View) (new : Option Known) (b : Bool)
      → string_Eq.beq at k ≡ b
      → f (v at) ≡ new
      → (if b then f (v k) else v k) ≡ (if b then new else v k)
  alter_if at k f v new true e h = ap (λ j. f (v j)) (sym (beq-eq at k e)) ∙ h
  alter_if at k f v new false e h = refl

  keyed_if :
      (at k : String) (new d : DocumentMirror U) (docs : Docs U) (b : Bool)
      → string_Eq.beq at k ≡ b
      → key new.uri ≡ at
      → ((j : String) (x : DocumentMirror U) → find j docs ≡ some x → key x.uri ≡ j)
      → (if b then some new else find k docs) ≡ some d
      → key d.uri ≡ k
  keyed_if at k new d docs true e same old h =
      let is_new : new ≡ d = cc in ap (λ x. key x.uri) (sym is_new) ∙ (same ∙ beq-eq at k e)
  keyed_if at k new d docs false e same old h = old k d h

  gone_if :
      (k : String) (d : DocumentMirror U) (docs : Docs U) (b : Bool)
      → ((j : String) (x : DocumentMirror U) → find j docs ≡ some x → key x.uri ≡ j)
      → (if b then none else find k docs) ≡ some d
      → key d.uri ≡ k
  gone_if k d docs true old h = absurd cc
  gone_if k d docs false old h = old k d h

  alter-put :
      {docs : Docs U} {v : View} (at : String) (d : DocumentMirror U)
      (f : Option Known → Option Known)
      → Follows docs v
      → key d.uri ≡ at
      → f (v at) ≡ some (known_of d)
      → Follows (put at d docs) (alter at f v)
  unfolding alter
  alter-put {docs} {v} at d f fo same h = record {
    agrees = λ k.
        alter_if at k f v (some (known_of d)) (string_Eq.beq at k) refl h
        ∙ (ap (λ o. if string_Eq.beq at k then some (known_of d) else o) (fo.agrees k)
            ∙ (sym (known_if (string_Eq.beq at k) (some d) (find k docs))
                ∙ ap known (sym (find-put k at d docs))));
    keyed = λ k x there.
        keyed_if at k d x docs (string_Eq.beq at k) refl same fo.keyed
          (sym (find-put k at d docs) ∙ there);
  }

  alter-erase :
      {docs : Docs U} {v : View} (at : String) (f : Option Known → Option Known)
      → Follows docs v
      → f (v at) ≡ none
      → Follows (erase at docs) (alter at f v)
  unfolding alter
  alter-erase {docs} {v} at f fo h = record {
    agrees = λ k.
        alter_if at k f v none (string_Eq.beq at k) refl h
        ∙ (ap (λ o. if string_Eq.beq at k then none else o) (fo.agrees k)
            ∙ (sym (known_if (string_Eq.beq at k) none (find k docs))
                ∙ ap known (sym (find-erase k at docs))));
    keyed = λ k x there.
        gone_if k x docs (string_Eq.beq at k) fo.keyed (sym (find-erase k at docs) ∙ there);
  }

  -- A document that is there is known.
  there :
      {docs : Docs U} {v : View} (at : String) (d : DocumentMirror U)
      → Follows docs v
      → find at docs ≡ some d
      → v at ≡ some (known_of d)
  there at d fo found = fo.agrees at ∙ ap known found

  -- The same under the URI of the document.
  amended :
      {docs : Docs U} {v : View} (uri : U) (d d' : DocumentMirror U) (f : Known → Known)
      → Follows docs v
      → find (key uri) docs ≡ some d
      → d'.uri ≡ d.uri
      → f (known_of d) ≡ known_of d'
      → Follows (put (key uri) d' docs) (alter (key d'.uri) (amend f) v)
  amended {docs} {v} uri d d' f fo found same h =
      let at : key d'.uri ≡ key uri = ap key same ∙ fo.keyed (key uri) d found in
      subst (λ k. Follows (put (key uri) d' docs) (alter k (amend f) v)) (sym at)
        (alter-put (key uri) d' (amend f) fo at
          (ap (amend f) (there (key uri) d fo found) ∙ ap some h))

  unaltered :
      {docs : Docs U} {v : View} (at : String) → Follows docs (alter at (λ o. o) v) → Follows docs v
  unfolding alter
  unaltered {v = v} at fo = record {
    agrees = λ k. sym (same_if (string_Eq.beq at k) (v k)) ∙ fo.agrees k;
    keyed = fo.keyed;
  }

  changed-Follows :
      {docs : Docs U} {v : View} (uri : U) (edit : EditorChange) (d d' : DocumentMirror U)
      (r : Result ModelContentChangedEvent)
      → Follows docs v
      → find (key uri) docs ≡ some d
      → Answers edit d d' r
      → Follows
          (changed key (key uri) docs (d', r)).0
          (hear_all key (ok_call (changed key (key uri) docs (d', r)).1) v)
  unfolding Answers hear hear_all
  changed-Follows uri edit d d' (err e) fo found (same, why) =
      let at : key d'.uri ≡ key uri = ap (λ x. key x.uri) same ∙ fo.keyed (key uri) d found in
      unaltered (key uri) (
        alter-put (key uri) d' (λ o. o) fo at
          (there (key uri) d fo found ∙ ap (λ x. some (known_of x)) (sym same)))
  changed-Follows uri edit d d' (ok event) fo found
        (checked, grown, dirty, eol, uri', language, version, each) =
      amended uri d d' _ fo found uri' (
        ap₂ (λ n l. record { version = n; is_dirty = d'.dirty; language_id = l }) version
          (sym language))

  -- Where a view agrees with the open documents, each of which stands under its key and below the
  -- last version of a `u64`, the view that hears the calls of any one operation of the bridge agrees
  -- with the documents after it: which are open, and the version, the dirty flag and the language of
  -- each. This holds for refused edits and unknown documents too.
  pub perform-Follows :
      (op : Op U) (docs : Docs U) (v : View)
      → Follows docs v
      → ((k : String) (d : DocumentMirror U) → find k docs ≡ some d → d.version + 1 < 2 ^ 64)
      → Follows (perform key op docs).0 (hear_all key (perform key op docs).1 v)
  unfolding perform hear hear_all open_document open_in_editor added_data new mark_saved close saved
      change set_language
  perform-Follows (opening uri text language) docs v fo room = alter-put (key uri) _ _ fo refl refl
  perform-Follows (opening_in_editor uri text language editor) docs v fo room =
      alter-put (key uri) _ _ fo refl refl
  perform-Follows (closing uri) docs v fo room = elim (Option-cases (find (key uri) docs)) [
    | inl missing ↦ rw (missing, close) fo
    | inr (d, found) ↦ rw (found, close) (alter-erase (key uri) _ fo refl)
  ]
  perform-Follows (saving uri) docs v fo room = elim (Option-cases (find (key uri) docs)) [
    | inl missing ↦ rw (missing, saved) fo
    | inr (d, found) ↦ rw (found, saved) (amended uri d (mark_saved d) _ fo found refl refl)
  ]
  perform-Follows (changing uri edit) docs v fo room = elim (Option-cases (find (key uri) docs)) [
    | inl missing ↦ rw (missing, change) fo
    | inr (d, found) ↦
        rw (found, change)
          (changed-Follows uri edit d (apply edit d).0 (apply edit d).1 fo found
            (apply-Answers edit d (room (key uri) d found)))
  ]
  perform-Follows (setting_language uri language) docs v fo room =
      elim (Option-cases (find (key uri) docs)) [
        | inl missing ↦ rw (missing, set_language) fo
        | inr (d, found) ↦
            rw (found, set_language)
              (amended uri d (record d { language_id = language }) _ fo found refl refl)
      ]
