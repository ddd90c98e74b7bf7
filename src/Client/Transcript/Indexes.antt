-- ===== src/Client/Transcript/Indexes.antt =====
-- The indexes that the reducer keeps lead to items that are there.
use darkpyonix_ember.Base.{
  ℕ, zero, suc, ◌≤◌, ◌<◌, ◌≡◌, refl, sym, ap, ◌∙◌, subst, inl, inr, true, none, some, List, [], ◌∷◌,
  length, length-append, arith, Bool-cases, Option-cases, find, put, string_Eq, find-put,
}
use Prim.Native.String.{String}
use darkpyonix_ember.Client.Wire.{
  AgentEvent, native_session, user_message, assistant_delta, assistant_message, tool_call,
  tool_result, approval_requested, approval_resolved, usage, turn_ended, error, notice, unknown,
}
use darkpyonix_ember.Client.Transcript.{
  Transcript, TranscriptItem, reduce_event, push_item, end_stream, card_at, modify, stop_streaming,
  extend_text, give_result, resolve, abandon_all,
}

pub length-modify {ℓ} :
    {A : Type ℓ} (i : ℕ) (f : A → A) (xs : List A) → length (modify i f xs) ≡ length xs
unfolding modify
length-modify i f [] = refl
length-modify zero f (x ∷ xs) = refl
length-modify (suc i) f (x ∷ xs) = ap suc (length-modify i f xs)

-- An index entry for the item that is pushed.
put_below :
    (id j : String) (i n : ℕ) (m : List (String × ℕ))
    → ((k : String) (x : ℕ) → find k m ≡ some x → x < n)
    → find j (put id n m) ≡ some i
    → i < suc n
put_below id j i n m h e = elim (Bool-cases (string_Eq.beq id j)) [
  | inl here ↦ omega (arith, same here)
  | inr other ↦ omega (arith, h j i (sym (rw other at (find-put j id n m)) ∙ e))
]
  where
    same : string_Eq.beq id j ≡ true → n ≡ i
    same here = cc (find-put j id n m, here, e)

module _ {J : Type 0} where
  pub record IsIndexed (t : Transcript J) : Type 0 where
    pub stream : (i : ℕ) → t.streaming ≡ some i → i < length t.items
    pub tools : (id : String) (i : ℕ) → find id t.tool_index ≡ some i → i < length t.items
    pub approvals : (id : String) (i : ℕ) → find id t.approval_index ≡ some i → i < length t.items

  length-abandon_all : (xs : List (TranscriptItem J)) → length (abandon_all xs) ≡ length xs
  unfolding abandon_all
  length-abandon_all [] = refl
  length-abandon_all (x ∷ xs) = ap suc (length-abandon_all xs)

  -- More items, and the same indexes or one fewer.
  same-IsIndexed :
      (t : Transcript J) (items : List (TranscriptItem J))
      → length t.items ≤ length items
      → IsIndexed t
      → IsIndexed (record t { items = items })
  same-IsIndexed t items h v = record {
    stream = λ i e. omega (arith, v.stream i e, h);
    tools = λ id i e. omega (arith, v.tools id i e, h);
    approvals = λ id i e. omega (arith, v.approvals id i e, h);
  }

  calm-IsIndexed : (t : Transcript J) → IsIndexed t → IsIndexed (record t { streaming = none })
  calm-IsIndexed t v = record { stream = λ i e. cc; tools = v.tools; approvals = v.approvals }

  push_item-IsIndexed :
      (item : TranscriptItem J) (t : Transcript J) → IsIndexed t → IsIndexed (push_item item t)
  unfolding push_item
  push_item-IsIndexed item t v =
      same-IsIndexed t _ (omega (arith, length-append t.items (item ∷ []))) v

  modify-IsIndexed :
      (i : ℕ) (f : TranscriptItem J → TranscriptItem J) (t : Transcript J)
      → IsIndexed t
      → IsIndexed (record t { items = modify i f t.items })
  modify-IsIndexed i f t v = same-IsIndexed t _ (omega (arith, length-modify i f t.items)) v

  end_stream-IsIndexed : (t : Transcript J) → IsIndexed t → IsIndexed (end_stream t)
  unfolding end_stream
  end_stream-IsIndexed t v = elim (Option-cases t.streaming) [
    | inl e ↦ simp (e, end_stream) v
    | inr (i, e) ↦
        simp (e, end_stream)
          (calm-IsIndexed (record t { items = modify i stop_streaming t.items })
            (modify-IsIndexed i stop_streaming t v))
  ]

  push_tool-IsIndexed :
      (item : TranscriptItem J) (id : String) (t : Transcript J)
      → IsIndexed t
      → IsIndexed (push_item item (record t { tool_index = put id (length t.items) t.tool_index }))
  unfolding push_item
  push_tool-IsIndexed item id t v =
      let grows = length-append t.items (item ∷ []) in
      record {
        stream = λ i e. omega (arith, v.stream i e, grows);
        tools =
            λ j i e. omega (arith, put_below id j i (length t.items) t.tool_index v.tools e, grows);
        approvals = λ j i e. omega (arith, v.approvals j i e, grows);
      }

  push_approval-IsIndexed :
      (item : TranscriptItem J) (id : String) (t : Transcript J)
      → IsIndexed t
      → IsIndexed
          (push_item item (record t { approval_index = put id (length t.items) t.approval_index }))
  unfolding push_item
  push_approval-IsIndexed item id t v =
      let grows = length-append t.items (item ∷ []) in
      record {
        stream = λ i e. omega (arith, v.stream i e, grows);
        tools = λ j i e. omega (arith, v.tools j i e, grows);
        approvals = λ j i e.
            omega (arith, put_below id j i (length t.items) t.approval_index v.approvals e, grows);
      }

  push_stream-IsIndexed :
      (item : TranscriptItem J) (t : Transcript J)
      → IsIndexed t
      → IsIndexed (push_item item (record t { streaming = some (length t.items) }))
  unfolding push_item
  push_stream-IsIndexed item t v =
      let grows = length-append t.items (item ∷ []) in
      record {
        stream = λ i e. ground (arith, grows);
        tools = λ j i e. omega (arith, v.tools j i e, grows);
        approvals = λ j i e. omega (arith, v.approvals j i e, grows);
      }

module _ {J : Type 0} (null : J) where
  -- Each event keeps the indexes good: none of `items[i]` in the reducer is out of range.
  pub reduce_event-IsIndexed :
      (t : Transcript J) (s : ℕ) (e : AgentEvent J)
      → IsIndexed t
      → IsIndexed (reduce_event null t s e)
  unfolding reduce_event
  reduce_event-IsIndexed t s (user_message text) v =
      push_item-IsIndexed _ (end_stream t) (end_stream-IsIndexed t v)
  reduce_event-IsIndexed t s (assistant_delta text) v = elim (Option-cases t.streaming) [
    | inl e ↦ simp (e, reduce_event) (push_stream-IsIndexed _ t v)
    | inr (i, e) ↦
        simp (e, reduce_event)
          (subst
            (λ o.
              IsIndexed (record t { items = modify i (extend_text text) t.items; streaming = o }))
            e (modify-IsIndexed i (extend_text text) t v))
  ]
  reduce_event-IsIndexed t s (assistant_message text) v = elim (Option-cases t.streaming) [
    | inl e ↦ simp (e, reduce_event) (push_item-IsIndexed _ t v)
    | inr (i, e) ↦
        simp (e, reduce_event)
          (calm-IsIndexed (record t { items = modify i (λ _. _) t.items })
            (modify-IsIndexed i _ t v))
  ]
  reduce_event-IsIndexed t s (tool_call id name input) v =
      push_tool-IsIndexed _ id (end_stream t) (end_stream-IsIndexed t v)
  reduce_event-IsIndexed t s (tool_result id output is_error) v =
      elim (Option-cases (card_at t id)) [
        | inl e ↦ simp (e, reduce_event) (push_tool-IsIndexed _ id t v)
        | inr (i, e) ↦ simp (e, reduce_event) (modify-IsIndexed i (give_result _) t v)
      ]
  reduce_event-IsIndexed t s (approval_requested id tool input) v =
      push_approval-IsIndexed _ id (end_stream t) (end_stream-IsIndexed t v)
  reduce_event-IsIndexed t s (approval_resolved id decision) v =
      elim (Option-cases (find id t.approval_index)) [
        | inl e ↦ simp (e, reduce_event) v
        | inr (i, e) ↦ simp (e, reduce_event) (modify-IsIndexed i (resolve decision) t v)
      ]
  reduce_event-IsIndexed t s (usage i o) v = record {
    stream = v.stream;
    tools = v.tools;
    approvals = v.approvals;
  }
  reduce_event-IsIndexed t s (turn_ended outcome) v =
      push_item-IsIndexed _ (record (end_stream t) { items = abandon_all (end_stream t).items })
        (same-IsIndexed (end_stream t) _ (omega (arith, length-abandon_all (end_stream t).items))
          (end_stream-IsIndexed t v))
  reduce_event-IsIndexed t s (error message) v = push_item-IsIndexed _ t v
  reduce_event-IsIndexed t s (notice message) v = push_item-IsIndexed _ t v
  reduce_event-IsIndexed t s (native_session id) v = v
  reduce_event-IsIndexed t s unknown v = v
