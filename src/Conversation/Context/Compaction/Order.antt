-- ===== src/Conversation/Context/Compaction/Order.antt =====
-- Messages in the order of their ids: what lies behind a checkpoint, and the last of them.
use agentic_learning_platfor.Base.{
  ℕ, zero, suc, ◌-◌, ◌≤◌, ◌<◌, ◌≡◌, refl, sym, ap, ◌∙◌, false, List, [], ◌∷◌, ◌++◌, length, drop,
  All, All-map, length-select-le, arith, ltb, leb, ltb→lt, lt→ltb, leb→le, Bool-cases, inl, inr,
}
use agentic_learning_platfor.Conversation.Notes.{Message, last}
use agentic_learning_platfor.Conversation.Context.Compaction.{after, last_id}

-- The messages are in the order of their ids.
abbrev pub Ordered : List Message → Type 0
Ordered [] = Unit
Ordered (m ∷ messages) = All (λ (x : Message). m.id < x.id) messages × Ordered messages

after-All :
    (c : ℕ) (messages : List Message)
    → All (λ (x : Message). c < x.id) messages
    → after c messages ≡ messages
after-All c [] h = refl
after-All c (m ∷ messages) (lt, h) = rw (lt→ltb c m.id lt, after-All c messages h) refl

after-Ordered :
    (c : ℕ) (messages : List Message)
    → Ordered messages
    → (P : Message → Type 0) → All P messages
    → All P (after c messages)
after-Ordered c [] o P h = tt
after-Ordered c (m ∷ messages) (lt, o) P (h, hs) = elim (Bool-cases (ltb c m.id)) [
  | inl e ↦ rw e (h, after-Ordered c messages o P hs)
  | inr e ↦ rw e (after-Ordered c messages o P hs)
]

pub Ordered-after :
    (c : ℕ) (messages : List Message) → Ordered messages → Ordered (after c messages)
Ordered-after c [] o = tt
Ordered-after c (m ∷ messages) (lt, o) = elim (Bool-cases (ltb c m.id)) [
  | inl e ↦ rw e (after-Ordered c messages o _ lt, Ordered-after c messages o)
  | inr e ↦ rw e (Ordered-after c messages o)
]

pub All-after :
    (c : ℕ) (messages : List Message) → All (λ (x : Message). c < x.id) (after c messages)
All-after c [] = tt
All-after c (m ∷ messages) = elim (Bool-cases (ltb c m.id)) [
  | inl e ↦ rw e (ltb→lt c m.id e, All-after c messages)
  | inr e ↦ rw e (All-after c messages)
]

-- A later checkpoint looks only behind an earlier one.
pub after-after :
    (c d : ℕ) (messages : List Message) → c ≤ d → after d (after c messages) ≡ after d messages
after-after c d [] h = refl
after-after c d (m ∷ messages) h = ground (arith, after-after c d messages h)

drop-nil : (n : ℕ) → drop {A = Message} n [] ≡ []
drop-nil zero = refl
drop-nil (suc n) = refl

pub last-all : (h : ℕ) (messages : List Message) → length messages ≤ h → last h messages ≡ messages
last-all h messages le = ap (λ n. drop n messages) (the_difference (length messages) h le)
  where
    the_difference : (n h : ℕ) → n ≤ h → n - h ≡ 0
    the_difference n h le = omega arith

last-cons :
    (h : ℕ) (m : Message) (messages : List Message)
    → h ≤ length messages
    → last h (m ∷ messages) ≡ last h messages
last-cons h m messages le = ap (λ n. drop n (m ∷ messages)) (one_more (length messages) h le)
  where
    one_more : (n h : ℕ) → h ≤ n → suc n - h ≡ suc (n - h)
    one_more n h le = omega arith

last-after-cons :
    (h c : ℕ) (m : Message) (messages : List Message)
    → Ordered (m ∷ messages)
    → h ≤ length messages
    → last h (after c (m ∷ messages)) ≡ last h (after c messages)
last-after-cons h c m messages (lt, o) le = elim (Bool-cases (ltb c m.id)) [
  | inl e ↦
      let all = after-All c messages (
        All-map (λ x. m.id < x.id) (λ x. c < x.id) (λ x b. omega (arith, ltb→lt c m.id e)) messages
          lt) in
      rw (e, all) (last-cons h m messages le)
  | inr e ↦ rw e refl
]

-- What is taken of the last messages is the last of what is taken.
pub after-last :
    (h c : ℕ) (messages : List Message)
    → Ordered messages
    → after c (last h messages) ≡ last h (after c messages)
after-last h c [] o = ap (after c) (drop-nil (0 - h)) ∙ sym (drop-nil (0 - h))
after-last h c (m ∷ messages) (lt, o) = elim (Bool-cases (leb h (length messages))) [
  | inl e ↦
      let le = leb→le h (length messages) e in
      ap (after c) (last-cons h m messages le)
      ∙ after-last h c messages o
      ∙ sym (last-after-cons h c m messages (lt, o) le)
  | inr e ↦
      let le = beyond h (length messages) e in
      ap (after c) (last-all h (m ∷ messages) le)
      ∙ sym (
          last-all h (after c (m ∷ messages))
            (omega (arith, le, length-select-le (λ (x : Message). ltb c x.id) (m ∷ messages))))
]
  where
    beyond : (h n : ℕ) → leb h n ≡ false → suc n ≤ h
    beyond h n e = ground arith

after-skip :
    (c : ℕ) (m : Message) (messages : List Message)
    → m.id ≤ c
    → after c (m ∷ messages) ≡ after c messages
after-skip c m messages le = ground arith

pub last_id-ge :
    (first : Message) (rows kept : List Message)
    → Ordered (first ∷ (rows ++ kept))
    → first.id ≤ last_id first.id rows
last_id-ge first [] kept o = omega arith
last_id-ge first (m ∷ rows) kept ((lt, lts), o) = omega (arith, lt, last_id-ge m rows kept o)

-- Behind the last id of a run of messages are the messages that follow it.
pub after-last_id :
    (first : Message) (rows kept : List Message)
    → Ordered (first ∷ (rows ++ kept))
    → after (last_id first.id rows) (first ∷ (rows ++ kept)) ≡ kept
after-last_id first [] kept (lt, o) =
    after-skip first.id first kept (omega arith) ∙ after-All first.id kept lt
after-last_id first (m ∷ rows) kept ((lt, lts), o) =
    after-skip (last_id m.id rows) first (m ∷ (rows ++ kept))
      (omega (arith, lt, last_id-ge m rows kept o))
    ∙ after-last_id m rows kept o

pub last-zero : (messages : List Message) → last 0 messages ≡ []
last-zero [] = drop-nil (0 - 0)
last-zero (m ∷ messages) = last-cons 0 m messages (omega arith) ∙ last-zero messages
