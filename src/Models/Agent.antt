-- ===== src/Models/Agent.antt =====
-- The agent's tables of db/models.py. `updated_at` and `created_at` are read from the database's
-- own clock.
use onecrawler_backend.Prelude.{ℕ, String, Option}

pub record AgentSettings : Type 0 where
  pub user_id : ℕ
  pub llm_provider : Option String
  pub llm_model : Option String
  pub llm_api_key : Option String
  pub llm_base_url : Option String
  pub search_provider : Option String
  pub search_api_key : Option String
  pub updated_at : ℕ

pub record Conversation : Type 0 where
  pub conversation_id : String
  pub user_id : ℕ
  pub title : String
  pub created_at : ℕ
  pub updated_at : ℕ

pub record ChatMessage : Type 0 where
  pub id : ℕ
  pub conversation_id : String
  pub role : String
  pub content : String
  pub created_at : ℕ
