-- ===== src/Graph/Topics.antt =====
-- The topic query and the flush of the dirty marks (internal/core/memory_graph.go).
use feishu_agent_mem.Prelude.{
  map_laws, ℕ, ◌+◌, String, List, [], ◌∷◌, ◌≡◌, refl, ◌∙◌, true, false, ◌&&◌, Option-cases, some,
  none, any, known, count_if, count_if-append, keep, map, Map, lookup, slice_at, slice_at-insert,
  All, arith, str_eq, eq_iff, str_eq_refl, Bool-cases, inl, inr,
}
use feishu_agent_mem.Decision.Types.{DecisionNode}
use feishu_agent_mem.Decision.Node.{is_active}
use feishu_agent_mem.Graph.State.{MemoryGraph, topic_key, upsert_decision, delete_decision}
use feishu_agent_mem.Graph.Queries.{found_nodes, query_by_topic, get_decision}
use feishu_agent_mem.Graph.Access.{get_dirty_and_clean}
use feishu_agent_mem.Graph.Consistency.{
  IsConsistent, has, is_dirty, is_stored, upsert_decision-IsConsistent,
  delete_decision-IsConsistent,
}

-- How many of the decisions have the id.
abbrev pub times : String → List DecisionNode → ℕ
times sdr_id = count_if (λ d. str_eq d.sdr_id sdr_id)

-- How often the index of a topic lists the id.
abbrev pub listed : String → String → String → MemoryGraph → ℕ
listed sdr_id project topic mg =
    count_if (λ s. str_eq s sdr_id) (slice_at (topic_key project topic) mg.topics)

abbrev IsKeyed : Map DecisionNode → Type 0
IsKeyed decisions = (k : String) (d : DecisionNode) → lookup k decisions ≡ some d → d.sdr_id ≡ k

module _ (decisions : Map DecisionNode) (keyed : IsKeyed decisions) where
  times-found_nodes :
      (sdr_id : String) (d : DecisionNode) (ids : List String)
      → lookup sdr_id decisions ≡ some d
      → is_active d ≡ true
      → times sdr_id (keep is_active (found_nodes decisions ids))
        ≡ count_if (λ s. str_eq s sdr_id) ids
  unfolding found_nodes
  times-found_nodes sdr_id d [] h a = refl
  times-found_nodes sdr_id d (x ∷ ids) h a = elim (Option-cases (lookup x decisions)) [
    | inl e ↦
        rw (e, found_nodes) (ground (arith, times-found_nodes sdr_id d ids h a, eq_iff x sdr_id))
    | inr (d', e) ↦
        rw (e, found_nodes)
          (ground (
            arith,
            times-found_nodes sdr_id d ids h a,
            eq_iff x sdr_id,
            eq_iff d'.sdr_id sdr_id,
            keyed x d' e,
          ))
  ]

  found_nodes-absent :
      (sdr_id : String) (ids : List String)
      → lookup sdr_id decisions ≡ none
      → times sdr_id (keep is_active (found_nodes decisions ids)) ≡ 0
  unfolding found_nodes
  found_nodes-absent sdr_id [] h = refl
  found_nodes-absent sdr_id (x ∷ ids) h = elim (Option-cases (lookup x decisions)) [
    | inl e ↦ rw (e, found_nodes) (found_nodes-absent sdr_id ids h)
    | inr (d', e) ↦
        rw (e, found_nodes)
          (ground (arith, found_nodes-absent sdr_id ids h, eq_iff d'.sdr_id sdr_id, keyed x d' e))
  ]

  any-found_nodes :
      (sdr_id : String) (ids : List String)
      → any (λ d. str_eq d.sdr_id sdr_id) (found_nodes decisions ids)
        ≡ has sdr_id ids && known (lookup sdr_id decisions)
  unfolding found_nodes
  any-found_nodes sdr_id [] = refl
  any-found_nodes sdr_id (x ∷ ids) = elim (Option-cases (lookup x decisions)) [
    | inl e ↦ rw (e, found_nodes) (ground (arith, any-found_nodes sdr_id ids, eq_iff x sdr_id))
    | inr (d', e) ↦
        rw (e, found_nodes)
          (ground (
            arith,
            any-found_nodes sdr_id ids,
            eq_iff x sdr_id,
            eq_iff d'.sdr_id sdr_id,
            keyed x d' e,
          ))
  ]

  abbrev Current : DecisionNode → Type 0
  Current d = (is_active d ≡ true) × (lookup d.sdr_id decisions ≡ some d)

  Current-found_nodes :
      (ids : List String) → All Current (keep is_active (found_nodes decisions ids))
  unfolding found_nodes
  Current-found_nodes [] = tt
  Current-found_nodes (x ∷ ids) = elim (Option-cases (lookup x decisions)) [
    | inl e ↦ rw (e, found_nodes) (Current-found_nodes ids)
    | inr (d', e) ↦
        rw (e, found_nodes)
          (elim (Bool-cases (is_active d')) [
            | inl a ↦ rw a ((a, simp (keyed x d' e) e), Current-found_nodes ids)
            | inr a ↦ rw a (Current-found_nodes ids)
          ])
  ]

-- In a consistent graph every decision that the topic query returns is active and is the one that is
-- stored under its id.
query_by_topic_sound :
    (project topic : String) (mg : MemoryGraph)
    → IsConsistent mg
    → All
        (λ d. (is_active d ≡ true) × (get_decision d.sdr_id mg ≡ some d))
        (query_by_topic project topic mg)
unfolding query_by_topic get_decision
query_by_topic_sound project topic mg c =
    Current-found_nodes mg.decisions c.keyed (slice_at (topic_key project topic) mg.topics)

times-query_by_topic :
    (sdr_id project topic : String) (d : DecisionNode) (mg : MemoryGraph)
    → IsConsistent mg
    → get_decision sdr_id mg ≡ some d
    → is_active d ≡ true
    → times sdr_id (query_by_topic project topic mg) ≡ listed sdr_id project topic mg
unfolding query_by_topic get_decision
times-query_by_topic sdr_id project topic d mg c h a =
    times-found_nodes mg.decisions c.keyed sdr_id d (slice_at (topic_key project topic) mg.topics) h
      a

get_decision-upsert_self :
    (node : DecisionNode) (project : String) (mg : MemoryGraph)
    → get_decision node.sdr_id (upsert_decision node project mg) ≡ some node
unfolding get_decision upsert_decision
get_decision-upsert_self node project mg = simp map_laws

listed-upsert :
    (node : DecisionNode) (project : String) (mg : MemoryGraph)
    → listed node.sdr_id project node.topic (upsert_decision node project mg)
      ≡ listed node.sdr_id project node.topic mg + 1
unfolding upsert_decision topic_key
listed-upsert node project mg =
    rw (slice_at-insert, str_eq_refl, count_if-append, str_eq_refl) (omega arith)

-- In a consistent graph an upsert of an active decision makes the query of its topic return it once
-- more than the topic's index listed its id before: it is found, and each later upsert of the same
-- decision adds one more copy of it to the result.
pub query_by_topic-upsert :
    (node : DecisionNode) (project : String) (mg : MemoryGraph)
    → IsConsistent mg
    → is_active node ≡ true
    → times node.sdr_id (query_by_topic project node.topic (upsert_decision node project mg))
      ≡ listed node.sdr_id project node.topic mg + 1
query_by_topic-upsert node project mg c a =
    times-query_by_topic node.sdr_id project node.topic node (upsert_decision node project mg)
      (upsert_decision-IsConsistent node project mg c) (get_decision-upsert_self node project mg) a
    ∙ listed-upsert node project mg

lookup-delete_self :
    (sdr_id : String) (mg : MemoryGraph)
    → lookup sdr_id (delete_decision sdr_id mg).decisions ≡ none
unfolding delete_decision
lookup-delete_self sdr_id mg = simp map_laws

-- In a consistent graph no topic query returns a decision with a deleted id.
query_by_topic-delete :
    (sdr_id project topic : String) (mg : MemoryGraph)
    → IsConsistent mg
    → times sdr_id (query_by_topic project topic (delete_decision sdr_id mg)) ≡ 0
unfolding query_by_topic
query_by_topic-delete sdr_id project topic mg c =
    let after = delete_decision sdr_id mg in
    found_nodes-absent after.decisions (delete_decision-IsConsistent sdr_id mg c).keyed sdr_id
      (slice_at (topic_key project topic) after.topics) (lookup-delete_self sdr_id mg)

has-keys {ℓ} : {V : Type ℓ} (k : String) (m : Map V) → has k (map (λ e. e.0) m) ≡ known (lookup k m)
unfolding lookup
has-keys k [] = refl
has-keys k ((j, v) ∷ m) = ground (arith, has-keys k m)

-- A dirty id is stored, so that the two tests together are the first.
dirty_and_stored :
    (k : String) (mg : MemoryGraph)
    → IsConsistent mg
    → is_dirty k mg && is_stored k mg ≡ is_dirty k mg
dirty_and_stored k mg c = ground (arith, c.dirty_stored k)

-- In a consistent graph the flush returns a decision with an id exactly when the id is dirty, leaves
-- no id dirty, and changes no stored decision.
pub get_dirty_and_clean_exact :
    (sdr_id : String) (mg : MemoryGraph)
    → IsConsistent mg
    → let (flushed, after) = get_dirty_and_clean mg in
      (any (λ d. str_eq d.sdr_id sdr_id) flushed ≡ is_dirty sdr_id mg)
      × (is_dirty sdr_id after ≡ false)
      × (get_decision sdr_id after ≡ get_decision sdr_id mg)
unfolding get_dirty_and_clean get_decision lookup
get_dirty_and_clean_exact sdr_id mg c = (
  any-found_nodes mg.decisions c.keyed sdr_id (map (λ e. e.0) mg.dirty_decisions)
      ∙ (rw has-keys (dirty_and_stored sdr_id mg c)),
  refl,
  refl,
)
