-- ===== src/Conversation/Context/Compaction/Laws.antt =====
-- Which messages a compaction takes into the summary, and which ones the context still shows.
use agentic_learning_platfor.Base.{
  ℕ, zero, suc, ◌-◌, ◌≤◌, ◌<◌, ◌≡◌, sym, ap, subst, ◌∙◌, false, some, List, [], ◌∷◌, ◌++◌, length,
  take, drop, All, length-drop, take-append-drop, arith, Bool-cases, inl, inr,
}
use agentic_learning_platfor.TokenBudget.{Tokenizer}
use agentic_learning_platfor.Conversation.Notes.{Message, Patterns, last}
use agentic_learning_platfor.Conversation.Context.{
  Limits, Conversation, bounded_history, task_state,
}
use agentic_learning_platfor.Conversation.Context.Compaction.{
  Compacted, after, last_id, compact_count, compact_rows, compact, recent_of, context_of, is_over,
  with_goal, build_conversation_context,
}
use agentic_learning_platfor.Conversation.Context.Compaction.Order.{
  Ordered, Ordered-after, All-after, after-after, last-all, after-last, last_id-ge, after-last_id,
  last-zero,
}

module _ (t : Tokenizer) (p : Patterns) (limits : Limits) where
  compact_count-surplus :
      (messages : List Message)
      → limits.threshold ≤ length messages
      → compact_count t p limits messages ≡ length messages - limits.history
  unfolding compact_count
  compact_count-surplus messages le = elim (Bool-cases (is_over t p limits messages)) [
    | inl e ↦ rw e (ground (arith, limits.history_below))
    | inr e ↦ rw e (ground (arith, limits.history_below))
  ]

  compact_count-none :
      (messages : List Message)
      → length messages < limits.threshold
      → is_over t p limits messages ≡ false
      → compact_count t p limits messages ≡ 0
  unfolding compact_count
  compact_count-none messages lt e = rw e (ground arith)

  compact-none :
      (c : Conversation) (messages : List Message)
      → compact_count t p limits messages ≡ 0
      → compact t p limits c messages
        ≡ record { conversation = c; uncompressed = messages; compacted = false }
  unfolding compact compact_rows
  compact-none c messages e =
      ap (λ n. compact_rows t p limits c (take n messages) (drop n messages)) e

module _ (t : Tokenizer) (p : Patterns) (limits : Limits) (c : Conversation)
    (messages : List Message) (ordered : Ordered messages) where
  abbrev behind : List Message
  behind = after c.summary_until messages

  abbrev kept : List Message
  kept = drop (compact_count t p limits behind) behind

  abbrev result : Conversation
  result = (compact t p limits c behind).conversation

  rows-Ordered : (rows : List Message) → rows ≡ behind → Ordered rows
  rows-Ordered rows e = subst Ordered (sym e) (Ordered-after c.summary_until messages ordered)

  last_id-later :
      (rows : List Message) (m : Message) (others : List Message)
      → m ∷ (rows ++ others) ≡ behind
      → c.summary_until ≤ last_id m.id rows
  last_id-later rows m others e =
      let beyond =
        subst (All (λ x. c.summary_until < x.id)) (sym e) (All-after c.summary_until messages) in
      omega (arith, beyond.0, last_id-ge m rows others (rows-Ordered (m ∷ (rows ++ others)) e))

  compact_rows-kept :
      (rows others : List Message)
      → rows ++ others ≡ behind
      → after (compact_rows t p limits c rows others).conversation.summary_until messages ≡ others
  unfolding compact_rows
  compact_rows-kept [] others e = sym e
  compact_rows-kept (m ∷ rows) others e =
      sym (after-after c.summary_until (last_id m.id rows) messages (last_id-later rows m others e))
      ∙ ap (after (last_id m.id rows)) (sym e)
      ∙ after-last_id m rows others (rows-Ordered (m ∷ (rows ++ others)) e)

  compact-kept : after result.summary_until messages ≡ kept
  unfolding compact
  compact-kept =
      let n = compact_count t p limits behind in
      compact_rows-kept (take n behind) (drop n behind) (take-append-drop n behind)

  recent_of-last :
      (h : ℕ) (d : Conversation)
      → recent_of t p limits h d messages ≡ last h (after d.summary_until messages)
  unfolding recent_of
  recent_of-last zero d = sym (last-zero (after d.summary_until messages))
  recent_of-last (suc h) d = after-last (suc h) d.summary_until messages ordered

  kept_fits : limits.threshold ≤ length behind → length kept ≤ limits.history
  kept_fits le = omega (
    arith,
    length-drop (compact_count t p limits behind) behind,
    compact_count-surplus t p limits behind le,
  )

  -- For messages in the order of their ids, the history is made of the new summary and of the last
  -- `history` of the messages that are not compacted, which are the ones behind the new checkpoint. From
  -- the threshold on these are all of them, so that no message is lost between the two.
  pub build_conversation_context-Window :
      ((build_conversation_context t p limits (some c) messages).1.history
        ≡ bounded_history t p limits result.summary (last limits.history kept))
      × (after result.summary_until messages ≡ kept)
      × (limits.threshold ≤ length behind → last limits.history kept ≡ kept)
  unfolding build_conversation_context context_of
  build_conversation_context-Window = (
    ap (bounded_history t p limits result.summary)
        (recent_of-last limits.history result ∙ ap (last limits.history) compact-kept),
    compact-kept,
    λ le. last-all limits.history kept (kept_fits le),
  )

  -- For messages in the order of their ids, of which there are more than `history` behind the
  -- checkpoint but fewer than the threshold, within the limit of tokens: nothing is compacted, the
  -- conversation is returned with its summary and its checkpoint as they were, and only with the new
  -- task state; and the history is made of that summary and the last `history` messages alone.
  pub build_conversation_context-gap :
      limits.history < length behind
      → length behind < limits.threshold
      → is_over t p limits behind ≡ false
      → ((build_conversation_context t p limits (some c) messages).0
          ≡ some (record c {
            task_state = some (with_goal c.task_state (task_state t p limits behind));
          }))
        × ((build_conversation_context t p limits (some c) messages).1.compacted ≡ false)
        × ((build_conversation_context t p limits (some c) messages).1.history
            ≡ bounded_history t p limits c.summary (last limits.history behind))
        × (length (last limits.history behind) ≡ limits.history)
  unfolding build_conversation_context context_of
  build_conversation_context-gap more fewer small =
      let same =
        compact-none t p limits c behind (compact_count-none t p limits behind fewer small) in
      let state = with_goal c.task_state (task_state t p limits behind) in
      (
        ap (λ (k : Compacted). some (record k.conversation { task_state = some state })) same,
        ap (λ (k : Compacted). k.compacted) same,
        ap
              (λ (k : Compacted).
                bounded_history t p limits k.conversation.summary
                  (recent_of t p limits limits.history k.conversation messages))
              same
            ∙ ap (bounded_history t p limits c.summary) (recent_of-last limits.history c),
        omega (arith, more, length-drop (length behind - limits.history) behind),
      )
