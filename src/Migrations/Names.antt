-- ===== src/Migrations/Names.antt =====
-- The names that the migrations use: of tables, of indexes and of the one function.
use onecrawler_backend.Prelude.{
  ◌≡◌, refl, sym, Bool, true, false, Option, none, some, List, [], ◌∷◌, ◌++◌, map, String, str_eq,
  eq_iff, All, inl, inr, Bool-cases, arith, map-append,
}
use mathlib.Core.Path.{subst}
use onecrawler_backend.Migrations.Schema.{Table, Database, all, mem, taken}
use onecrawler_backend.Migrations.Operations.{Op}
use onecrawler_backend.Migrations.Frame.{Clear, mentions, beside}
use onecrawler_backend.Migrations.Frame.Tables.{any-append}
use onecrawler_backend.Migrations.Versions.{Casts}
use onecrawler_backend.Migrations.Versions.Initial.{upgrade_0001, downgrade_0001}
use onecrawler_backend.Migrations.Versions.Accounts.{
  upgrade_0002, downgrade_0002, upgrade_0003, downgrade_0003, upgrade_0009, downgrade_0009,
}
use onecrawler_backend.Migrations.Versions.Settings.{
  upgrade_0004, downgrade_0004, upgrade_0006, downgrade_0006, upgrade_0007, downgrade_0007,
  upgrade_0008, downgrade_0008,
}
use onecrawler_backend.Migrations.Versions.Content.{upgrade_0005, downgrade_0005}
use onecrawler_backend.Migrations.Versions.Assistant.{upgrade_0011, downgrade_0011}
use onecrawler_backend.Migrations.Chain.{Migration, fixed, history, table_name, table_names}
use onecrawler_backend.Migrations.Versions.Assistant.{
  agent_settings, conversations, chat_messages, upgrade_0010, downgrade_0010,
}

unfoldable pub own_names : List String
own_names =
    "crawl_jobs" ∷ "discovered_urls" ∷ "ix_discovered_urls_job_id" ∷ "crawl_result_items"
    ∷ "ix_crawl_result_items_job_id" ∷ "log_lines" ∷ "ix_log_lines_job_id" ∷ "users"
    ∷ "crawl_settings_templates" ∷ "provider_api_keys" ∷ "_crawl_result_content_to_jsonb"
    ∷ "refresh_sessions" ∷ "ix_refresh_sessions_user_id" ∷ "agent_settings" ∷ "conversations"
    ∷ "ix_conversations_user_id" ∷ "chat_messages" ∷ "ix_chat_messages_conversation_id" ∷ []

abbrev names_own : Op → Bool
unfolding own_names
names_own op = all (λ n. mem n own_names) (mentions op)

module _ (P : String → Type 0) where
  All-mem : (ns : List String) (n : String) → All P ns → mem n ns ≡ true → P n
  All-mem [] n h e = absurd (ground (arith, e))
  All-mem (m ∷ ns) n h e = elim (Bool-cases (str_eq n m)) [
    | inl q ↦ subst P (sym ((eq_iff n m).0 q)) h.0
    | inr q ↦ All-mem ns n h.1 (ground (arith, q, e))
  ]

  All-members : (ns ms : List String) → All P ns → all (λ m. mem m ns) ms ≡ true → All P ms
  All-members ns [] h e = tt
  All-members ns (m ∷ ms) h e =
      (All-mem ns m h (ground (arith, e)), All-members ns ms h (ground (arith, e)))

mem-names_untaken :
    (n : String) (ts : List Table) → taken n ts ≡ false → mem n (map table_name ts) ≡ false
mem-names_untaken n [] h = refl
mem-names_untaken n (t ∷ ts) h = elim (Bool-cases (str_eq n t.name)) [
  | inl e ↦ absurd (ground (arith, named e, h))
  | inr e ↦ let rest = mem-names_untaken n ts (ground (arith, h)) in ground (arith, e, rest)
]
  where
    named : str_eq n t.name ≡ true → str_eq t.name n ≡ true
    named e = (eq_iff t.name n).1 (sym ((eq_iff n t.name).0 e))

module _ (s : Database) (clear : All (Clear s) own_names) where
  own-Clear :
      (ops : List Op) → all names_own ops ≡ true → All (λ op. All (Clear s) (mentions op)) ops
  unfolding own_names
  own-Clear [] e = tt
  own-Clear (op ∷ ops) e = (
    All-members (Clear s) own_names (mentions op) clear (ground (arith, e)),
    own-Clear ops (ground (arith, e)),
  )

  -- The calls of a migration name no more than that, and what it is told of the tables outside is
  -- of no matter.
  pub record Contained (m : Migration) : Type 0 where
    pub up_clear : (ns : List String) → All (λ op. All (Clear s) (mentions op)) (m.upgrade ns)
    pub down_clear : All (λ op. All (Clear s) (mentions op)) m.downgrade
    pub up_beside :
        (d : Database) → m.upgrade (table_names (beside s d)) ≡ m.upgrade (table_names d)

  fixed-Contained :
      (r : String) (p : Option String) (up down : List Op)
      → all names_own up ≡ true
      → all names_own down ≡ true
      → Contained (fixed r p up down)
  fixed-Contained r p up down hu hd = record {
    up_clear = λ ns. own-Clear up hu;
    down_clear = own-Clear down hd;
    up_beside = λ d. refl;
  }

  own : (n : String) → mem n own_names ≡ true → Clear s n
  own n e = All-mem (Clear s) own_names n clear e

  -- A table that is not outside is found among the names of both databases as it is of the one.
  mem-names :
      (n : String) (a : List Table)
      → taken n s.tables ≡ false
      → mem n (map table_name (a ++ s.tables)) ≡ mem n (map table_name a)
  mem-names n a h = rw (map-append table_name a s.tables) (
      any-append (str_eq n) (map table_name a) (map table_name s.tables)
        (mem-names_untaken n s.tables h))

  agent_names :
      (casts : Casts) (x y z : Bool)
      → all names_own (agent_settings casts x ++ conversations casts y ++ chat_messages casts z)
        ≡ true
  unfolding own_names
  agent_names casts false false false = refl
  agent_names casts false false true = refl
  agent_names casts false true false = refl
  agent_names casts false true true = refl
  agent_names casts true false false = refl
  agent_names casts true false true = refl
  agent_names casts true true false = refl
  agent_names casts true true true = refl

  pub history-Contained : (casts : Casts) → All Contained (history casts)
  unfolding history own_names
  history-Contained casts = (
    fixed-Contained "0001" none upgrade_0001 downgrade_0001 refl refl,
    (
      fixed-Contained "0002" (some "0001") upgrade_0002 downgrade_0002 refl refl,
      (
        fixed-Contained "0003" (some "0002") upgrade_0003 downgrade_0003 refl refl,
        (
          fixed-Contained "0004" (some "0003") upgrade_0004 downgrade_0004 refl refl,
          (
            fixed-Contained "0005" (some "0004") (upgrade_0005 casts) (downgrade_0005 casts) refl
                refl,
            (
              fixed-Contained "0006" (some "0005") upgrade_0006 downgrade_0006 refl refl,
              (
                fixed-Contained "0007" (some "0006") upgrade_0007 downgrade_0007 refl refl,
                (
                  fixed-Contained "0008" (some "0007") upgrade_0008 downgrade_0008 refl refl,
                  (
                    fixed-Contained "0009" (some "0008") upgrade_0009 downgrade_0009 refl refl,
                    (
                      record {
                        up_clear = λ ns. own-Clear (upgrade_0010 casts ns) (
                            agent_names casts (mem "agent_settings" ns) (mem "conversations" ns)
                              (mem "chat_messages" ns));
                        down_clear = own-Clear downgrade_0010 refl;
                        up_beside = λ d.
                            rw
                              (
                                mem-names "agent_settings" d.tables
                                    (own "agent_settings" refl).untaken,
                                mem-names "conversations" d.tables
                                    (own "conversations" refl).untaken,
                                mem-names "chat_messages" d.tables
                                    (own "chat_messages" refl).untaken,
                              )
                              refl;
                      },
                      (
                        fixed-Contained "0011" (some "0010") upgrade_0011 downgrade_0011 refl refl,
                        tt,
                      ),
                    ),
                  ),
                ),
              ),
            ),
          ),
        ),
      ),
    ),
  )
