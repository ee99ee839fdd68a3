-- ===== src/Agent/Conversations/Memory.antt =====
-- `_record_turn` and `_conversation_history` of api/v1/agent/router.py as a store of transcripts.
use mathlib.Core.List.{Perm}
use mathlib.Core.List.Perm
use mathlib.Core.Path.{subst}
use onecrawler_backend.Prelude.{
  ◌<◌, eq_refl, ℕ, ◌≡◌, ◌∙◌, refl, inl, inr, String, List, [], ◌∷◌, ◌++◌, map, arith, All,
  append-nil, map-append, Bool-cases, str_eq, if◌then◌else◌,
}
use onecrawler_backend.Tables.{select}
use onecrawler_backend.Tables.Laws.{select-append}
use onecrawler_backend.Tables.Order.Laws.{order_by-perm, All-select}
use onecrawler_backend.Tables.Order.Ties.{IsOldestFirst, sorted_parts}
use onecrawler_backend.Models.{Uuid}
use onecrawler_backend.Models.Agent.{ChatMessage}
use onecrawler_backend.Backend.{Backend}
use onecrawler_backend.Agent.Conversations.{
  Message, human, ai, message_of, is_in, conversation_history, turn_row, record_turn,
}

-- The specification: what was said under each id, oldest first, and what a turn adds to it.
abbrev pub Transcripts : Type 0
Transcripts = String → List Message

unfoldable pub add_turn : String → String → String → Transcripts → Transcripts
add_turn conversation_id message reply chats c =
    if str_eq conversation_id c then chats c ++ human message ∷ ai reply ∷ [] else chats c

-- what the tables stand for
unfoldable pub transcripts : Backend → Transcripts
unfolding conversation_history
transcripts s conversation_id = map message_of (conversation_history conversation_id s)

-- What the history of a conversation may be, in whatever order the database answers with it: the
-- rows of one turn have the same time.
abbrev pub Told : String → Backend → List Message → Type 0
Told c s ms = Perm ms (map message_of (select (is_in c) s.chat_messages))

-- `conversation_history` gives one of these.
pub transcripts-Told : (c : String) (s : Backend) → Told c s (transcripts s c)
unfolding transcripts conversation_history
transcripts-Told c s =
    Perm.map message_of
      (order_by-perm (λ (m : ChatMessage). m.created_at) (select (is_in c) s.chat_messages))

-- Recording a turn adds its two messages to what is told in their conversation and nothing to any
-- other.
pub record_turn-told :
    (user : Uuid) (conversation_id message reply : String) (ids : ℕ → ℕ) (now : ℕ) (s : Backend)
    (c : String) (before after : List Message)
    → Told c s before
    → Told c (record_turn user conversation_id message reply ids now s) after
    → Perm after (add_turn conversation_id message reply (λ _. before) c)
unfolding add_turn record_turn
record_turn-told user conversation_id message reply ids now s c before after h k =
    let said = turn_row (ids 0) conversation_id "human" message now in
    let replied = turn_row (ids 1) conversation_id "ai" reply now in
    let stored = select (is_in c) s.chat_messages in
    let split = select-append (is_in c) s.chat_messages (said ∷ replied ∷ []) in
    let k' = subst (λ rows. Perm after (map message_of rows)) split k in
    elim (Bool-cases (str_eq conversation_id c)) [
      | inr other ↦ rw other (
          Perm.trans
            (subst (λ rows. Perm after (map message_of rows)) (append-nil stored) (rw other at k'))
            (Perm.symm h))
      | inl here ↦ rw here (
          Perm.trans
            (subst (Perm after) (map-append message_of stored (said ∷ replied ∷ []))
              (rw here at k'))
            (Perm.append_right (human message ∷ ai reply ∷ []) (Perm.symm h)))
    ]

-- After a turn, if every row of the conversation is older, an answer of the database to
-- `_conversation_history` has the old rows first, and then the two of the turn.
pub record_turn-ordered :
    (user : Uuid) (conversation_id message reply : String) (ids : ℕ → ℕ) (now : ℕ) (s : Backend)
    (rows : List ChatMessage)
    → All (λ (m : ChatMessage). m.created_at < now) s.chat_messages
    → Perm rows (
        select
          (is_in conversation_id)
          (record_turn user conversation_id message reply ids now s).chat_messages)
    → IsOldestFirst (λ (m : ChatMessage). m.created_at) rows
    → (earlier : List ChatMessage) × (turn : List ChatMessage) × (rows ≡ earlier ++ turn)
      × Perm earlier (select (is_in conversation_id) s.chat_messages)
      × Perm (map message_of turn) (human message ∷ ai reply ∷ [])
unfolding record_turn
record_turn-ordered user conversation_id message reply ids now s rows older h sorted =
    let said = turn_row (ids 0) conversation_id "human" message now in
    let replied = turn_row (ids 1) conversation_id "ai" reply now in
    let stored = select (is_in conversation_id) s.chat_messages in
    let split = select-append (is_in conversation_id) s.chat_messages (said ∷ replied ∷ []) in
    let both : Perm rows (stored ++ said ∷ replied ∷ []) =
      subst (λ (ms : List ChatMessage). Perm rows ms) (split ∙ rw (eq_refl conversation_id) refl)
        h in
    let (earlier, turn, parts, before, after) =
      sorted_parts (λ (m : ChatMessage). m.created_at) now rows stored (said ∷ replied ∷ []) sorted
        both (All-select _ (is_in conversation_id) s.chat_messages older)
        (omega arith, (omega arith, tt)) in
    (earlier, turn, parts, before, Perm.map message_of after)
