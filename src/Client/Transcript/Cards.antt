-- ===== src/Client/Transcript/Cards.antt =====
-- What single events do to the items: how a reply is assembled.
use darkpyonix_ember.Base.{
  ℕ, ◌≡◌, refl, ap, ◌∙◌, true, false, none, some, List, [], ◌∷◌, ◌++◌, length, arith,
}
use Prim.Native.String.{String}
use Prim.Native.String.{◌++◌ as text_append}
use darkpyonix_ember.Client.Wire.{assistant_delta, assistant_message}
use darkpyonix_ember.Client.Transcript.{
  Transcript, TranscriptItem, assistant, reduce, push_item, modify, extend_text,
}

module _ {J : Type 0} (null : J) where
  -- The deltas of a reply, each with its sequence number.
  pub deltas : Transcript J → List (ℕ × String) → Transcript J
  deltas t [] = t
  deltas t ((s, text) ∷ ds) = deltas (reduce null t s (assistant_delta text)) ds

  modify_last :
      (f : TranscriptItem J → TranscriptItem J) (xs : List (TranscriptItem J))
      (x : TranscriptItem J)
      → modify (length xs) f (xs ++ x ∷ []) ≡ xs ++ f x ∷ []
  unfolding modify
  modify_last f [] x = refl
  modify_last f (y ∷ xs) x = ap (◌∷◌ y) (modify_last f xs x)

  -- The text of the deltas, behind what was there.
  pub assembled : String → List (ℕ × String) → String
  assembled text [] = text
  assembled text ((s, more) ∷ ds) = assembled (text_append text more) ds

  delta_extends :
      (t : Transcript J) (i s : ℕ) (more : String)
      → t.streaming ≡ some i
      → ((reduce null t s (assistant_delta more)).streaming ≡ some i)
        × ((reduce null t s (assistant_delta more)).items ≡ modify i (extend_text more) t.items)
  unfolding reduce
  delta_extends t i s more e = ground arith

  delta_opens :
      (t : Transcript J) (s : ℕ) (text : String)
      → t.streaming ≡ none
      → ((reduce null t s (assistant_delta text)).streaming ≡ some (length t.items))
        × ((reduce null t s (assistant_delta text)).items ≡ t.items ++ assistant s text true ∷ [])
  unfolding reduce push_item
  delta_opens t s text e = ground arith

  message_replaces :
      (t : Transcript J) (i s : ℕ) (text : String)
      → t.streaming ≡ some i
      → (reduce null t s (assistant_message text)).items
        ≡ modify i (λ _. assistant s text false) t.items
  unfolding reduce
  message_replaces t i s text e = ground arith

  -- Deltas on a reply that is streaming at the end of the items.
  deltas-streaming :
      (items : List (TranscriptItem J)) (t : Transcript J) (seq : ℕ) (text : String)
      (ds : List (ℕ × String))
      → t.streaming ≡ some (length items)
      → t.items ≡ items ++ assistant seq text true ∷ []
      → ((deltas t ds).streaming ≡ some (length items))
        × ((deltas t ds).items ≡ items ++ assistant seq (assembled text ds) true ∷ [])
  unfolding deltas assembled
  deltas-streaming items t seq text [] e h = (e, h)
  deltas-streaming items t seq text ((s, more) ∷ ds) e h =
      let (e', h') = delta_extends t (length items) s more e in
      deltas-streaming items (reduce null t s (assistant_delta more)) seq (text_append text more) ds
        e'
        (h'
          ∙ ap (modify (length items) (extend_text more)) h
          ∙ unfold extend_text in (modify_last (extend_text more) items (assistant seq text true)))

  -- Outside a reply, deltas open one streaming item at the end that holds the texts in order under
  -- the first delta's number, and the final message takes its place; no other item changes.
  pub deltas-message :
      (t : Transcript J) (s : ℕ) (text : String) (ds : List (ℕ × String)) (last : ℕ)
      (whole : String)
      → t.streaming ≡ none
      → let t' = deltas t ((s, text) ∷ ds) in
        (t'.items ≡ t.items ++ assistant s (assembled text ds) true ∷ [])
        × ((reduce null t' last (assistant_message whole)).items
            ≡ t.items ++ assistant last whole false ∷ [])
  unfolding deltas
  deltas-message t s text ds last whole e =
      let (e₁, h₁) = delta_opens t s text e in
      let (e₂, h₂) =
        deltas-streaming t.items (reduce null t s (assistant_delta text)) s text ds e₁ h₁ in
      (
        h₂,
        message_replaces (deltas (reduce null t s (assistant_delta text)) ds) (length t.items) last
              whole e₂
            ∙ ap (modify (length t.items) (λ _. assistant last whole false)) h₂
            ∙ modify_last _ t.items _,
      )
