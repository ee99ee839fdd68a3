-- ===== src/Agent/Conversations/Titles.antt =====
-- The titles that `_record_turn` of api/v1/agent/router.py gives to conversations.
use Prim.Native.String.{String}
use onecrawler_backend.Prelude.{
  ℕ, zero, suc, ◌≤◌, inl, inr, Bool, List, [], ◌∷◌, All, All-append, Bool-cases, arith, is_some,
  count_chars, prefix,
}
use onecrawler_backend.Tables.{find, update}
use onecrawler_backend.Models.{Uuid}
use onecrawler_backend.Models.Agent.{Conversation}
use onecrawler_backend.Backend.{Backend}
use onecrawler_backend.Agent.Conversations.{title_max_len, has_conversation, touched, record_turn}

abbrev pub HasShortTitle : Conversation → Type 0
HasShortTitle c = count_chars c.title ≤ title_max_len

count-prefix : (n : ℕ) (s : String) → count_chars (prefix n s) ≤ n
count-prefix zero s = omega arith
count-prefix (suc n) String.[] = omega arith
count-prefix (suc n) (String.◌∷◌ c s) = omega (arith, count-prefix n s)

touch-titles :
    (p : Conversation → Bool) (now : ℕ) (rows : List Conversation)
    → All HasShortTitle rows
    → All HasShortTitle (update p (touched now) rows)
touch-titles p now [] h = tt
touch-titles p now (c ∷ rows) h = elim (Bool-cases (p c)) [
  | inl e ↦ rw e (h.0, touch-titles p now rows h.1)
  | inr e ↦ rw e (h.0, touch-titles p now rows h.1)
]

pub record_turn-titles :
    (user : Uuid) (conversation_id message reply : String) (ids : ℕ → ℕ) (now : ℕ) (s : Backend)
    → All HasShortTitle s.conversations
    → All HasShortTitle (record_turn user conversation_id message reply ids now s).conversations
unfolding record_turn
record_turn-titles user conversation_id message reply ids now s h =
    elim (Bool-cases (is_some (find (has_conversation conversation_id) s.conversations))) [
      | inl e ↦ rw e (touch-titles (has_conversation conversation_id) now s.conversations h)
      | inr e ↦
          rw e
            (All-append HasShortTitle s.conversations _ h (count-prefix title_max_len message, tt))
    ]
