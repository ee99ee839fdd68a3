-- ===== src/Agent/Cache/Transparent.antt =====
-- The cache of agent/executor.py against the agents that it stands for.
use onecrawler_backend.Prelude.{
  ◌+◌, ◌≤◌, ◌≡◌, ◌∙◌, refl, sym, ap, inl, inr, String, Bool, true, Option, none, some, [], ◌∷◌,
  ◌++◌, arith, length, length-append, length-drop, drop, ltb, if◌then◌else◌, All, All-append,
  All-drop, eq_iff, same_text, Bool-cases, Option-cases,
}
use onecrawler_backend.Agent.Llm.{ChatModel, Attempt, made, failed}
use onecrawler_backend.Agent.Cache.{
  AgentKey, Agent, AgentCache, is_key, lookup, without, evict, agent_with, add_agent, model_of,
  get_agent, max_cached_agents,
}

-- what a key's agent is without a cache
unfoldable pub new_agent : Bool → AgentKey → Attempt ChatModel → Attempt Agent
new_agent tracing key (failed error) = failed error
new_agent tracing key (made chat_model) = made (agent_with tracing key chat_model)

-- Every entry is the agent of its key, and there are no more entries than the bound.
abbrev pub IsSound : Bool → AgentCache → Type 0
IsSound tracing cache =
    All (λ (e : AgentKey × Agent). new_agent tracing e.0 (model_of e.0) ≡ made e.1) cache
    × (length cache ≤ max_cached_agents)

same_text_eq : (s t : Option String) → same_text s t ≡ true → s ≡ t
same_text_eq none none h = refl
same_text_eq (some s) (some t) h = ap some ((eq_iff s t).0 h)
same_text_eq none (some t) h = cc
same_text_eq (some s) none h = cc

is_key_eq : (k j : AgentKey) → is_key k j ≡ true → k ≡ j
is_key_eq k j h =
    let provider = (eq_iff k.provider j.provider).0 (ground (arith, h)) in
    let model = (eq_iff k.model j.model).0 (ground (arith, h)) in
    let api_key = same_text_eq k.api_key j.api_key (ground (arith, h)) in
    let base_url = same_text_eq k.base_url j.base_url (ground (arith, h)) in
    λ i. record {
      provider = provider i;
      model = model i;
      api_key = api_key i;
      base_url = base_url i;
    }

-- the agent of a lookup, or another one in its place
abbrev agent_of : Agent → Option Agent → Agent
agent_of other none = other
agent_of other (some agent) = agent

module _ (tracing : Bool) (key : AgentKey) where
  lookup-new :
      (cache : AgentCache) (agent : Agent)
      → All (λ (e : AgentKey × Agent). new_agent tracing e.0 (model_of e.0) ≡ made e.1) cache
      → lookup key cache ≡ some agent
      → new_agent tracing key (model_of key) ≡ made agent
  lookup-new [] agent h f = cc
  lookup-new ((k, a) ∷ cache) agent h f = elim (Bool-cases (is_key k key)) [
    | inl e ↦
        let same : some a ≡ some agent =
          ap (λ b. if b then some a else lookup key cache) (sym e) ∙ f in
        ap (λ j. new_agent tracing j (model_of j)) (sym (is_key_eq k key e))
        ∙ h.0
        ∙ ap (λ o. made (agent_of a o)) same
    | inr e ↦
        lookup-new cache agent h.1 (ap (λ b. if b then some a else lookup key cache) (sym e) ∙ f)
  ]

  without-All :
      (P : AgentKey × Agent → Type 0) (cache : AgentCache) → All P cache → All P (without key cache)
  without-All P [] h = tt
  without-All P ((k, a) ∷ cache) h = elim (Bool-cases (is_key k key)) [
    | inl e ↦ rw e (without-All P cache h.1)
    | inr e ↦ rw e (h.0, without-All P cache h.1)
  ]

  length-without : (cache : AgentCache) → length (without key cache) ≤ length cache
  length-without [] = omega arith
  length-without ((k, a) ∷ cache) = ground (arith, length-without cache)

  -- What was found makes room for itself.
  length-without_found :
      (cache : AgentCache) (agent : Agent)
      → lookup key cache ≡ some agent
      → length (without key cache) + 1 ≤ length cache
  length-without_found [] agent f = cc
  length-without_found ((k, a) ∷ cache) agent f =
      ground (arith, length-without cache, length-without_found cache agent)

evict-IsSound :
    (tracing : Bool) (cache : AgentCache)
    → All (λ (e : AgentKey × Agent). new_agent tracing e.0 (model_of e.0) ≡ made e.1) cache
    → length cache ≤ max_cached_agents + 1
    → IsSound tracing (evict cache)
evict-IsSound tracing cache h l = elim (Bool-cases (ltb max_cached_agents (length cache))) [
  | inl e ↦ rw e (All-drop _ 1 cache h, length-evicted)
  | inr e ↦ rw e (h, ground (arith, e))
]
  where
    length-evicted : length (drop 1 cache) ≤ max_cached_agents
    length-evicted = omega (arith, length-drop 1 cache, l)

-- A new agent goes to the end of the cache.
add_agent-new :
    (tracing : Bool) (key : AgentKey) (attempt : Attempt ChatModel) (cache : AgentCache)
    → attempt ≡ model_of key
    → IsSound tracing cache
    → ((add_agent tracing key attempt cache).0 ≡ new_agent tracing key attempt)
      × IsSound tracing (add_agent tracing key attempt cache).1
unfolding new_agent
add_agent-new tracing key (failed error) cache e h = (refl, h)
add_agent-new tracing key (made chat_model) cache e h =
    let entry = agent_with tracing key chat_model in
    (
      refl,
      evict-IsSound tracing (cache ++ (key, entry) ∷ [])
          (All-append _ cache ((key, entry) ∷ []) h.0 (ap (new_agent tracing key) (sym e), tt))
          (omega (arith, length-append cache ((key, entry) ∷ []), h.1)),
    )

-- The cache is not seen: a call answers with the agent, or the error, that building it anew would
-- give; and the cache that it leaves is sound and within its bound again.
pub get_agent-new :
    (tracing : Bool) (key : AgentKey) (cache : AgentCache)
    → IsSound tracing cache
    → ((get_agent tracing key cache).0 ≡ new_agent tracing key (model_of key))
      × IsSound tracing (get_agent tracing key cache).1
unfolding get_agent
get_agent-new tracing key cache h = elim (Option-cases (lookup key cache)) [
  | inl n ↦ rw n (add_agent-new tracing key (model_of key) cache refl h)
  | inr (agent, f) ↦
      let built = lookup-new tracing key cache agent h.0 f in
      rw f (
        sym built,
        (
          All-append _ (without key cache) ((key, agent) ∷ []) (without-All tracing key _ cache h.0)
              (built, tt),
          omega (
            arith,
            length-append (without key cache) ((key, agent) ∷ []),
            length-without_found tracing key cache agent f,
            h.1,
          ),
        ),
      )
]
