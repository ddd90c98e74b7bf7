-- ===== src/Node/Jobs/Log.antt =====
-- The log of events in every run of the daemon: what was broadcast is numbered from 1, and the
-- history is its newest part.
use darkpyonix_ember.Base.{
  ℕ, zero, suc, ◌+◌, ◌-◌, ◌^◌, ◌≤◌, ◌<◌, ◌≡◌, refl, sym, ap, ap₂, ◌∙◌, Bool, true, false, List, [],
  ◌∷◌, ◌++◌, length, drop, keep, ltb, if◌then◌else◌, arith, length-append, newest, push_newest,
  drop-nil, newest, push_newest, drop-add, ltb→lt,
}
use darkpyonix_ember.Node.Jobs.{
  NodeEvent, NodeEventKind, Jobs, event_history, push_event, emit, subscribe, new,
}
use Prim.Native.String.{String}

module _ {T : Type 0} where
  -- The events of these kinds, numbered from `n`.
  unfoldable pub numbered : String → ℕ → List (NodeEventKind T) → List (NodeEvent T)
  numbered boot n [] = []
  numbered boot n (k ∷ ks) = record { seq = n; boot_id = boot; kind = k } ∷ numbered boot (n + 1) ks

  pub length-numbered :
      (boot : String) (n : ℕ) (ks : List (NodeEventKind T))
      → length (numbered boot n ks) ≡ length ks
  unfolding numbered
  length-numbered boot n [] = refl
  length-numbered boot n (k ∷ ks) = omega (arith, length-numbered boot (n + 1) ks)

  numbered-snoc :
      (boot : String) (n : ℕ) (ks : List (NodeEventKind T)) (k : NodeEventKind T)
      → numbered boot n (ks ++ k ∷ [])
        ≡ numbered boot n ks ++ record { seq = n + length ks; boot_id = boot; kind = k } ∷ []
  unfolding numbered
  numbered-snoc boot n [] k = ground arith
  numbered-snoc boot n (x ∷ ks) k = ground (arith, numbered-snoc boot (n + 1) ks k)

  -- The daemon `boot` has broadcast events of these kinds, and nothing else.
  pub record Logged (boot : String) (kinds : List (NodeEventKind T)) (j : Jobs T) : Type 0 where
    pub same_boot : j.boot_id ≡ boot
    pub counted : j.log.next_seq ≡ length kinds + 1
    pub kept : j.log.history ≡ newest event_history (numbered boot 1 kinds)

  pub new-Logged : (boot : String) → Logged boot [] (new boot)
  unfolding numbered
  new-Logged boot = record { same_boot = refl; counted = refl; kept = refl }

  -- `emit` broadcasts the next event of the log.
  pub emit-Logged :
      {boot : String} {kinds : List (NodeEventKind T)} (k : NodeEventKind T) (j : Jobs T)
      → Logged boot kinds j
      → length kinds + 2 < 2 ^ 64
      → Logged boot (kinds ++ k ∷ []) (emit k j).0
  unfolding emit push_event
  emit-Logged {boot} {kinds} k j l room = record {
    same_boot = l.same_boot;
    counted = omega (arith, l.counted, length-append kinds (k ∷ []));
    kept =
        ap₂ push_event l.kept (
          ap₂ (λ q b. record { seq = q; boot_id = b; kind = k }) (l.counted ∙ omega arith)
            l.same_boot)
        ∙ (push_newest event_history (numbered boot 1 kinds) _
            ∙ ap (newest event_history) (sym (numbered-snoc boot 1 kinds k)));
  }

  pub emit-numbered :
      {boot : String} {kinds : List (NodeEventKind T)} (k : NodeEventKind T) (j : Jobs T)
      → Logged boot kinds j
      → numbered boot 1 kinds ++ (emit k j).1 ∷ [] ≡ numbered boot 1 (kinds ++ k ∷ [])
  unfolding emit
  emit-numbered {boot} {kinds} k j l =
      ap (λ ev. numbered boot 1 kinds ++ ev ∷ [])
        (ap₂ (λ q b. record { seq = q; boot_id = b; kind = k }) (l.counted ∙ omega arith)
          l.same_boot)
      ∙ sym (numbered-snoc boot 1 kinds k)

  -- One event of the list, whose seq is `n`.
  keep_head :
      (n after : ℕ) (x : NodeEvent T) (rest : List (NodeEvent T)) {kept : List (NodeEvent T)}
      (b : Bool)
      → ltb after n ≡ b
      → kept ≡ drop (after + 1 - (n + 1)) rest
      → (if b then x ∷ kept else kept) ≡ drop (after + 1 - n) (x ∷ rest)
  keep_head n after x rest true e h =
      let past = ltb→lt after n e in
      ap (λ ys. x ∷ ys) (h ∙ ap (λ k. drop k rest) {x = after + 1 - (n + 1)} {y = 0} (omega arith))
      ∙ ap (λ k. drop k (x ∷ rest)) {x = 0} {y = after + 1 - n} (omega arith)
  keep_head n after x rest false e h =
      h
      ∙ ap (λ k. drop k (x ∷ rest)) {x = suc (after + 1 - (n + 1))} {y = after + 1 - n}
          (ground arith)

  keep-numbered :
      (boot : String) (n after : ℕ) (ks : List (NodeEventKind T))
      → keep (λ e. ltb after e.seq) (numbered boot n ks) ≡ drop (after + 1 - n) (numbered boot n ks)
  unfolding numbered
  keep-numbered boot n after [] = sym (drop-nil (after + 1 - n))
  keep-numbered boot n after (k ∷ ks) =
      keep_head n after _ _ (ltb after n) refl (keep-numbered boot (n + 1) after ks)

  drop-numbered :
      (boot : String) (n d : ℕ) (ks : List (NodeEventKind T))
      → drop d (numbered boot n ks) ≡ numbered boot (n + d) (drop d ks)
  unfolding numbered
  drop-numbered boot n zero ks = ap (λ m. numbered boot m ks) (omega arith)
  drop-numbered boot n (suc d) [] = refl
  drop-numbered boot n (suc d) (k ∷ ks) =
      drop-numbered boot (n + 1) d ks ∙ ap (λ m. numbered boot m (drop d ks)) (omega arith)

  -- A server that has seen the first `after` events of the daemon gets, while these are not more
  -- than the history behind, exactly the later ones.
  pub subscribe-Logged :
      {boot : String} {kinds : List (NodeEventKind T)} (after : ℕ) (j : Jobs T)
      → Logged boot kinds j
      → length kinds ≤ after + event_history
      → subscribe after j ≡ drop after (numbered boot 1 kinds)
  unfolding subscribe
  subscribe-Logged {boot} {kinds} after j l near =
      let all = numbered boot 1 kinds in
      let d = length all - event_history in
      let later : ℕ → Bool = λ n. ltb after n in
      ap (keep (λ e. later e.seq)) (l.kept ∙ drop-numbered boot 1 d kinds)
      ∙ (keep-numbered boot (1 + d) after (drop d kinds)
          ∙ (ap (drop (after + 1 - (1 + d))) (sym (drop-numbered boot 1 d kinds))
              ∙ (sym (drop-add d (after + 1 - (1 + d)) all)
                  ∙ ap (λ m. drop m all) {x = d + (after + 1 - (1 + d))} {y = after}
                      (omega (arith, length-numbered boot 1 kinds)))))
