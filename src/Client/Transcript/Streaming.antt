-- ===== src/Client/Transcript/Streaming.antt =====
-- Which items are flagged as streaming: at most the one that the transcript's `streaming` names.
use darkpyonix_ember.Base.{
  ℕ, zero, suc, ◌≡◌, refl, sym, ap, ◌∙◌, ◌≢◌, ◌⊎◌, inl, inr, Bool, true, false, Option, none, some,
  List, [], ◌∷◌, ◌++◌, length, get_elem?, arith, Option-cases, find, string_Eq,
}
use Prim.Native.String.{String}
use darkpyonix_ember.Client.Wire.{
  AgentEvent, ApprovalDecision, native_session, user_message, assistant_delta, assistant_message,
  tool_call, tool_result, approval_requested, approval_resolved, usage, turn_ended, error, notice,
  unknown,
}
use darkpyonix_ember.Client.Transcript.{
  Transcript, TranscriptItem, ToolOutput, assistant, ended, approval, pending, resolved, abandoned,
  user, tool_card, failure, note, reduce_event, push_item, end_stream, card_at, modify,
  stop_streaming, extend_text, give_result, resolve, abandon, abandon_all,
}

-- What `modify` leaves at each index.
get-modify {ℓ} :
    {A : Type ℓ} (i j : ℕ) (f : A → A) (xs : List A) (y : A)
    → get_elem? (modify i f xs) j ≡ some y
    → (x : A) × (get_elem? xs j ≡ some x) × (((i ≡ j) × (f x ≡ y)) ⊎ ((i ≢ j) × (x ≡ y)))
unfolding modify
get-modify i j f [] y h = absurd cc
get-modify zero zero f (x ∷ xs) y h = (x, refl, inl (refl, cc))
get-modify zero (suc j) f (x ∷ xs) y h = (y, h, inr (omega arith, refl))
get-modify (suc i) zero f (x ∷ xs) y h = (x, refl, inr (omega arith, cc))
get-modify (suc i) (suc j) f (x ∷ xs) y h =
    let (z, e, at) = get-modify i j f xs y h in
    (
      z,
      e,
      elim at [
        | inl (same, k) ↦ inl (ap suc same, k)
        | inr (other, k) ↦ inr (omega (arith, other), k)
      ],
    )

get-push {ℓ} :
    {A : Type ℓ} (xs : List A) (x : A) (j : ℕ) (y : A)
    → get_elem? (xs ++ x ∷ []) j ≡ some y
    → (get_elem? xs j ≡ some y) ⊎ ((length xs ≡ j) × (x ≡ y))
get-push [] x zero y h = inr (refl, cc)
get-push [] x (suc j) y h = absurd cc
get-push (z ∷ xs) x zero y h = inl h
get-push (z ∷ xs) x (suc j) y h = elim (get-push xs x j y h) [
  | inl k ↦ inl k
  | inr (e, k) ↦ inr (ap suc e, k)
]

abbrev pub is_streaming : {J : Type 0} → TranscriptItem J → Bool
is_streaming (assistant seq text streaming) = streaming
is_streaming item = false

-- An item that is flagged stands where the stream is.
abbrev pub Only : {J : Type 0} → List (TranscriptItem J) → Option ℕ → Type 0
Only {J} items s =
    (i : ℕ) (x : TranscriptItem J) → get_elem? items i ≡ some x → is_streaming x ≡ true → s ≡ some i

module _ {J : Type 0} where
  -- Where an update of an item flags none that was not flagged.
  modify-Only :
      (i : ℕ) (f : TranscriptItem J → TranscriptItem J) (items : List (TranscriptItem J))
      (s : Option ℕ)
      → ((x : TranscriptItem J) → is_streaming (f x) ≡ true → is_streaming x ≡ true)
      → Only items s
      → Only (modify i f items) s
  modify-Only i f items s calm v j y h flagged =
      let (x, e, at) = get-modify i j f items y h in
      elim at [
        | inl (same, k) ↦ v j x e (calm x (ap is_streaming k ∙ flagged))
        | inr (other, k) ↦ v j x e (ap is_streaming k ∙ flagged)
      ]

  -- Where the update of the streaming item takes its flag.
  close-Only :
      (i : ℕ) (f : TranscriptItem J → TranscriptItem J) (items : List (TranscriptItem J))
      → ((x : TranscriptItem J) → is_streaming (f x) ≡ false)
      → Only items (some i)
      → Only (modify i f items) none
  close-Only i f items off v j y h flagged =
      let (x, e, at) = get-modify i j f items y h in
      elim at [
        | inl (same, k) ↦ absurd (cc (off x, ap is_streaming k, flagged))
        | inr (other, k) ↦ absurd (other (cc (v j x e (ap is_streaming k ∙ flagged))))
      ]

  pub push-Only :
      (items : List (TranscriptItem J)) (item : TranscriptItem J) (s : Option ℕ)
      → is_streaming item ≡ false
      → Only items s
      → Only (items ++ item ∷ []) s
  push-Only items item s off v j y h flagged = elim (get-push items item j y h) [
    | inl e ↦ v j y e flagged
    | inr (at, same) ↦ absurd (cc (off, ap is_streaming same, flagged))
  ]

  open-Only :
      (items : List (TranscriptItem J)) (item : TranscriptItem J)
      → Only items none
      → Only (items ++ item ∷ []) (some (length items))
  open-Only items item v j y h flagged = elim (get-push items item j y h) [
    | inl e ↦ absurd (cc (v j y e flagged))
    | inr (at, same) ↦ ap some at
  ]

  extend_text-calm :
      (text : String) (x : TranscriptItem J)
      → is_streaming (extend_text text x) ≡ true
      → is_streaming x ≡ true
  unfolding extend_text
  extend_text-calm text (assistant seq t b) h = h
  extend_text-calm text (user seq t) h = h
  extend_text-calm text (tool_card seq id name input result) h = h
  extend_text-calm text (approval seq id tool input state) h = h
  extend_text-calm text (ended seq outcome) h = h
  extend_text-calm text (failure seq t) h = h
  extend_text-calm text (note seq t) h = h

  give_result-calm :
      (out : ToolOutput) (x : TranscriptItem J)
      → is_streaming (give_result out x) ≡ true
      → is_streaming x ≡ true
  unfolding give_result
  give_result-calm out (assistant seq t b) h = h
  give_result-calm out (user seq t) h = h
  give_result-calm out (tool_card seq id name input result) h = h
  give_result-calm out (approval seq id tool input state) h = h
  give_result-calm out (ended seq outcome) h = h
  give_result-calm out (failure seq t) h = h
  give_result-calm out (note seq t) h = h

  resolve-calm :
      (decision : ApprovalDecision) (x : TranscriptItem J)
      → is_streaming (resolve decision x) ≡ true
      → is_streaming x ≡ true
  unfolding resolve
  resolve-calm decision (assistant seq t b) h = h
  resolve-calm decision (user seq t) h = h
  resolve-calm decision (tool_card seq id name input result) h = h
  resolve-calm decision (approval seq id tool input state) h = h
  resolve-calm decision (ended seq outcome) h = h
  resolve-calm decision (failure seq t) h = h
  resolve-calm decision (note seq t) h = h

  stop_streaming-off : (x : TranscriptItem J) → is_streaming (stop_streaming x) ≡ false
  unfolding stop_streaming
  stop_streaming-off (assistant seq t b) = refl
  stop_streaming-off (user seq t) = refl
  stop_streaming-off (tool_card seq id name input result) = refl
  stop_streaming-off (approval seq id tool input state) = refl
  stop_streaming-off (ended seq outcome) = refl
  stop_streaming-off (failure seq t) = refl
  stop_streaming-off (note seq t) = refl

  is_streaming-abandon : (x : TranscriptItem J) → is_streaming (abandon x) ≡ is_streaming x
  unfolding abandon
  is_streaming-abandon (assistant seq t b) = refl
  is_streaming-abandon (user seq t) = refl
  is_streaming-abandon (tool_card seq id name input result) = refl
  is_streaming-abandon (approval seq id tool input pending) = refl
  is_streaming-abandon (approval seq id tool input (resolved decision)) = refl
  is_streaming-abandon (approval seq id tool input abandoned) = refl
  is_streaming-abandon (ended seq outcome) = refl
  is_streaming-abandon (failure seq t) = refl
  is_streaming-abandon (note seq t) = refl

  pub get-abandon_all :
      (xs : List (TranscriptItem J)) (j : ℕ) (y : TranscriptItem J)
      → get_elem? (abandon_all xs) j ≡ some y
      → (x : TranscriptItem J) × (get_elem? xs j ≡ some x) × (abandon x ≡ y)
  unfolding abandon_all
  get-abandon_all [] j y h = absurd cc
  get-abandon_all (x ∷ xs) zero y h = (x, refl, cc)
  get-abandon_all (x ∷ xs) (suc j) y h = get-abandon_all xs j y h

  pub abandon_all-Only :
      (items : List (TranscriptItem J)) (s : Option ℕ) → Only items s → Only (abandon_all items) s
  abandon_all-Only items s v j y h flagged =
      let (x, e, same) = get-abandon_all items j y h in
      v j x e (sym (is_streaming-abandon x) ∙ (ap is_streaming same ∙ flagged))

  pub end_stream-Only :
      (t : Transcript J)
      → Only t.items t.streaming
      → ((end_stream t).streaming ≡ none) × Only (end_stream t).items none
  unfolding end_stream
  end_stream-Only t v = elim (Option-cases t.streaming) [
    | inl e ↦ simp (e, end_stream) (refl, rw e at v)
    | inr (i, e) ↦
        simp (e, end_stream)
          (refl, close-Only i stop_streaming t.items stop_streaming-off (rw e at v))
  ]

  -- A new item that ends the stream.
  closing_push :
      (t : Transcript J) (item : TranscriptItem J)
      → is_streaming item ≡ false
      → Only t.items t.streaming
      → Only ((end_stream t).items ++ item ∷ []) (end_stream t).streaming
  closing_push t item off v =
      let (quiet, none_left) = end_stream-Only t v in
      push-Only (end_stream t).items item (end_stream t).streaming off (rw quiet none_left)

module _ {J : Type 0} (null : J) where
  -- Each event leaves at most the item flagged that the stream stands at.
  pub reduce_event-Only :
      (t : Transcript J) (s : ℕ) (e : AgentEvent J)
      → Only t.items t.streaming
      → Only (reduce_event null t s e).items (reduce_event null t s e).streaming
  unfolding reduce_event push_item
  reduce_event-Only t s (user_message text) v = closing_push t (user s text) refl v
  reduce_event-Only t s (assistant_delta text) v = elim (Option-cases t.streaming) [
    | inl e ↦ simp (e, reduce_event) (open-Only t.items (assistant s text true) (rw e at v))
    | inr (i, e) ↦
        simp (e, reduce_event)
          (modify-Only i (extend_text text) t.items (some i) (extend_text-calm text) (rw e at v))
  ]
  reduce_event-Only t s (assistant_message text) v = elim (Option-cases t.streaming) [
    | inl e ↦
        simp (e, reduce_event) (push-Only t.items (assistant s text false) none refl (rw e at v))
    | inr (i, e) ↦
        simp (e, reduce_event)
          (close-Only i (λ _. assistant s text false) t.items (λ x. refl) (rw e at v))
  ]
  reduce_event-Only t s (tool_call id name input) v =
      closing_push t (tool_card s id name input none) refl v
  reduce_event-Only t s (tool_result id output is_error) v = elim (Option-cases (card_at t id)) [
    | inl e ↦ simp (e, reduce_event) (push-Only t.items _ t.streaming refl v)
    | inr (i, e) ↦
        simp (e, reduce_event)
          (modify-Only i (give_result _) t.items t.streaming (give_result-calm _) v)
  ]
  reduce_event-Only t s (approval_requested id tool input) v =
      closing_push t (approval s id tool input pending) refl v
  reduce_event-Only t s (approval_resolved id decision) v =
      elim (Option-cases (find id t.approval_index)) [
        | inl e ↦ simp (e, reduce_event) v
        | inr (i, e) ↦
            simp (e, reduce_event)
              (modify-Only i (resolve decision) t.items t.streaming (resolve-calm decision) v)
      ]
  reduce_event-Only t s (usage i o) v = v
  reduce_event-Only t s (turn_ended outcome) v =
      let (quiet, off) = end_stream-Only t v in
      push-Only (abandon_all (end_stream t).items) (ended s outcome) (end_stream t).streaming refl
        (abandon_all-Only (end_stream t).items (end_stream t).streaming (rw quiet off))
  reduce_event-Only t s (error message) v = push-Only t.items (failure s message) t.streaming refl v
  reduce_event-Only t s (notice message) v = push-Only t.items (note s message) t.streaming refl v
  reduce_event-Only t s (native_session id) v = v
  reduce_event-Only t s unknown v = v
