-- ===== src/Client/Transcript/Settled.antt =====
-- What the end of a turn leaves behind in a transcript that was reduced from the beginning.
use darkpyonix_ember.Base.{
  ℕ, zero, suc, ◌≡◌, refl, sym, ap, ◌∙◌, Bool, true, false, none, some, List, [], ◌∷◌, ◌++◌,
  get_elem?, keep, arith, inl, inr, Bool-cases,
}
use darkpyonix_ember.Client.Wire.{AgentEvent, TurnOutcome, turn_ended}
use darkpyonix_ember.Client.Transcript.{
  Transcript, TranscriptItem, assistant, ended, approval, pending, resolved, abandoned, user,
  tool_card, failure, note, new, reduce, reduce_event, push_item, end_stream, abandon, abandon_all,
  is_pending, pending_approvals,
}
use darkpyonix_ember.Client.Transcript.Streaming.{
  is_streaming, Only, get-abandon_all, end_stream-Only, reduce_event-Only,
}

keep-append {ℓ} :
    {A : Type ℓ} (p : A → Bool) (xs ys : List A) → keep p (xs ++ ys) ≡ keep p xs ++ keep p ys
keep-append p [] ys = refl
keep-append p (x ∷ xs) ys = ground (arith, keep-append p xs ys)

module _ {J : Type 0} where
  keep-none :
      (p : TranscriptItem J → Bool) (xs : List (TranscriptItem J))
      → ((i : ℕ) (x : TranscriptItem J) → get_elem? xs i ≡ some x → p x ≡ true → ⊥)
      → keep p xs ≡ []
  keep-none p [] h = refl
  keep-none p (x ∷ xs) h = elim (Bool-cases (p x)) [
    | inl holds ↦ absurd (h zero x refl holds)
    | inr fails ↦ rw fails (keep-none p xs (λ i y e q. h (suc i) y e q))
  ]

  abandon_all-settled :
      (items : List (TranscriptItem J)) (i : ℕ) (x : TranscriptItem J)
      → get_elem? (abandon_all items) i ≡ some x
      → is_pending x ≡ false
  abandon_all-settled items i x h =
      let (y, e, same) = get-abandon_all items i x h in sym (ap is_pending same) ∙ settled y
    where
      settled : (y : TranscriptItem J) → is_pending (abandon y) ≡ false
      settled (assistant seq t b) = unfold abandon in refl
      settled (user seq t) = unfold abandon in refl
      settled (tool_card seq id name input result) = unfold abandon in refl
      settled (approval seq id tool input pending) = unfold abandon in refl
      settled (approval seq id tool input (resolved decision)) = unfold abandon in refl
      settled (approval seq id tool input abandoned) = unfold abandon in refl
      settled (ended seq outcome) = unfold abandon in refl
      settled (failure seq t) = unfold abandon in refl
      settled (note seq t) = unfold abandon in refl

module _ {J : Type 0} (null : J) where
  -- Numbered events, applied in order.
  unfoldable pub reduce_all : Transcript J → List (ℕ × AgentEvent J) → Transcript J
  reduce_all t [] = t
  reduce_all t ((s, e) ∷ es) = reduce_all (reduce null t s e) es

  reduce_all-Only :
      (t : Transcript J) (es : List (ℕ × AgentEvent J))
      → Only t.items t.streaming
      → Only (reduce_all t es).items (reduce_all t es).streaming
  unfolding reduce_all reduce
  reduce_all-Only t [] v = v
  reduce_all-Only t ((s, e) ∷ es) v =
      reduce_all-Only (reduce null t s e) es
        (reduce_event-Only null (record t { last_seq = s }) s e v)

  new-Only : Only (new {J = J}).items (new {J = J}).streaming
  unfolding new
  new-Only i x h = absurd cc

  -- When a turn ends after any events of a session, reduced in order from its beginning, then no
  -- approval is left waiting for an answer, no item is flagged as a reply that is streaming, and
  -- the next delta opens a reply of its own.
  pub turn_ended_settles :
      (es : List (ℕ × AgentEvent J)) (s : ℕ) (outcome : TurnOutcome)
      → let t = reduce null (reduce_all new es) s (turn_ended outcome) in
        (pending_approvals t ≡ []) × (keep is_streaming t.items ≡ []) × (t.streaming ≡ none)
  unfolding pending_approvals reduce reduce_event push_item
  turn_ended_settles es s outcome = (
    keep-append is_pending left (ended s outcome ∷ [])
        ∙ ap (λ k. k ++ [])
            (keep-none is_pending left
              (λ i x h p. absurd (cc (abandon_all-settled calm.items i x h, p)))),
    keep-none is_streaming (left ++ ended s outcome ∷ [])
        (λ i x h p. absurd (cc (closed i x h p, quiet))),
    quiet,
  )
    where
      before : Transcript J
      before = record (reduce_all new es) { last_seq = s }

      calm : Transcript J
      calm = end_stream before

      left : List (TranscriptItem J)
      left = abandon_all calm.items

      flags : Only before.items before.streaming
      flags = reduce_all-Only new es new-Only

      quiet : calm.streaming ≡ none
      quiet = (end_stream-Only before flags).0

      closed : Only (left ++ ended s outcome ∷ []) calm.streaming
      closed = reduce_event-Only null before s (turn_ended outcome) flags
