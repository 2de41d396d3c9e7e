-- ===== src/Graph/Consistency.antt =====
-- The invariant of the graph between two calls, write by write (internal/core/memory_graph.go).
use feishu_agent_mem.Prelude.{
  ◌≤◌, String, List, [], ◌∷◌, ◌≡◌, refl, Bool, true, false, ◌||◌, ◌&&◌, not, Map, Option,
  Option-cases, some, none, any, count_if, count_if-append, lookup, insert, erase, slice_at,
  lookup-insert, lookup-erase, slice_at-insert, arith, str_eq, eq_iff, Result, ok, err, known,
  Bool-cases, inl, inr,
}
use feishu_agent_mem.Decision.Types.{DecisionNode}
use feishu_agent_mem.Decision.Node.{dummy_sdr_id}
use feishu_agent_mem.Graph.State.{
  MemoryGraph, append_unique, add_decision_internal, upsert_decision, delete_decision, GitReader,
  add_read, load_branches, load_from_git, read_branch,
}
use feishu_agent_mem.Graph.Access.{update_node}

-- The item is in the list.
abbrev pub has : String → List String → Bool
has item = any (λ s. str_eq s item)

abbrev pub is_stored : String → MemoryGraph → Bool
is_stored sdr_id mg = known (lookup sdr_id mg.decisions)

abbrev pub is_dirty : String → MemoryGraph → Bool
is_dirty sdr_id mg = known (lookup sdr_id mg.dirty_decisions)

-- Each decision stands under its own id, only stored decisions are dirty, and no project lists a
-- topic twice.
pub record IsConsistent (mg : MemoryGraph) : Type 0 where
  pub keyed : (k : String) (d : DecisionNode) → lookup k mg.decisions ≡ some d → d.sdr_id ≡ k
  pub dirty_stored : (k : String) → is_dirty k mg ≡ true → is_stored k mg ≡ true
  pub topics_unique :
      (project topic : String) → count_if (λ s. str_eq s topic) (slice_at project mg.projects) ≤ 1

count_zero :
    (item : String) (xs : List String) → has item xs ≡ false → count_if (λ s. str_eq s item) xs ≡ 0
count_zero item [] h = refl
count_zero item (x ∷ xs) h = ground (arith, count_zero item xs)

pub append_unique_unique :
    (xs : List String) (item t : String)
    → count_if (λ s. str_eq s t) xs ≤ 1
    → count_if (λ s. str_eq s t) (append_unique xs item) ≤ 1
unfolding append_unique
append_unique_unique xs item t h = elim (Bool-cases (has item xs)) [
  | inl old ↦ rw old h
  | inr new ↦ rw (new, count_if-append) (ground (arith, count_zero item xs new, eq_iff item t, h))
]

pub known-insert {ℓ} :
    {V : Type ℓ} (k j : String) (v : V) (m : Map V)
    → known (lookup j (insert k v m)) ≡ str_eq k j || known (lookup j m)
known-insert k j v m = ground (arith, lookup-insert k j v m)

known-erase {ℓ} :
    {V : Type ℓ} (k j : String) (m : Map V)
    → known (lookup j (erase k m)) ≡ not (str_eq k j) && known (lookup j m)
known-erase k j m = ground (arith, lookup-erase k j m)

add_decision_internal-IsConsistent :
    (node : DecisionNode) (project : String) (mg : MemoryGraph)
    → IsConsistent mg
    → IsConsistent (add_decision_internal node project mg)
unfolding add_decision_internal
add_decision_internal-IsConsistent node project mg c = record {
  keyed = λ k d. rw lookup-insert (λ e. ground (arith, c.keyed k d, eq_iff node.sdr_id k));
  dirty_stored =
      λ k e. ground (arith, c.dirty_stored k, known-insert node.sdr_id k node mg.decisions);
  topics_unique = λ p t. rw slice_at-insert (
      ground (
        arith,
        c.topics_unique p t,
        c.topics_unique project t,
        append_unique_unique (slice_at project mg.projects) node.topic t,
      ));
}

pub upsert_decision-IsConsistent :
    (node : DecisionNode) (project : String) (mg : MemoryGraph)
    → IsConsistent mg
    → IsConsistent (upsert_decision node project mg)
unfolding upsert_decision
upsert_decision-IsConsistent node project mg c =
    let added = add_decision_internal-IsConsistent node project mg c in
    record {
      keyed = added.keyed;
      dirty_stored = λ k e. ground (
        arith,
        c.dirty_stored k,
        known-insert node.sdr_id k node mg.decisions,
        known-insert node.sdr_id k tt mg.dirty_decisions,
      );
      topics_unique = added.topics_unique;
    }

pub delete_decision-IsConsistent :
    (sdr_id : String) (mg : MemoryGraph)
    → IsConsistent mg
    → IsConsistent (delete_decision sdr_id mg)
unfolding delete_decision
delete_decision-IsConsistent sdr_id mg c = record {
  keyed = λ k d. rw lookup-erase (λ e. ground (arith, c.keyed k d));
  dirty_stored = λ k e. ground (
    arith,
    c.dirty_stored k,
    known-erase sdr_id k mg.decisions,
    known-erase sdr_id k mg.dirty_decisions,
  );
  topics_unique = c.topics_unique;
}

-- A change through a pointer that leaves the id alone.
pub update_node-IsConsistent :
    (sdr_id : String) (change : DecisionNode → DecisionNode) (mg : MemoryGraph)
    → ((d : DecisionNode) → (change d).sdr_id ≡ d.sdr_id)
    → IsConsistent mg
    → IsConsistent (update_node sdr_id change mg).1
unfolding update_node
update_node-IsConsistent sdr_id change mg same c =
    elim (Option-cases (lookup sdr_id mg.decisions)) [
      | inl e ↦ rw (e, update_node) c
      | inr (d, e) ↦
          rw (e, update_node)
            (record {
              keyed = λ k d'.
                  rw lookup-insert
                    (λ h. ground (arith, c.keyed k d', c.keyed sdr_id d, same d, eq_iff sdr_id k));
              dirty_stored = λ k h. ground (
                arith,
                c.dirty_stored k,
                known-insert sdr_id k (change d) mg.decisions,
                known-insert sdr_id k tt mg.dirty_decisions,
              );
              topics_unique = c.topics_unique;
            })
    ]

add_read-IsConsistent :
    (project : String) (o : Option DecisionNode) (mg : MemoryGraph)
    → IsConsistent mg
    → IsConsistent (add_read project o mg)
unfolding add_read
add_read-IsConsistent project none mg c = c
add_read-IsConsistent project (some node) mg c =
    add_decision_internal-IsConsistent node project mg c

load_branches-IsConsistent :
    (reader : GitReader) (project : String) (branches : List String) (mg : MemoryGraph)
    → IsConsistent mg
    → IsConsistent (load_branches reader project branches mg)
unfolding load_branches
load_branches-IsConsistent reader project [] mg c = c
load_branches-IsConsistent reader project (b ∷ branches) mg c =
    load_branches-IsConsistent reader project branches (add_read project (read_branch reader b) mg)
      (add_read-IsConsistent project (read_branch reader b) mg c)

pub load_from_git-IsConsistent :
    (reader : GitReader) (project : String) (mg : MemoryGraph)
    → IsConsistent mg
    → IsConsistent (load_from_git reader project mg).1
unfolding load_from_git
load_from_git-IsConsistent reader project mg c = go reader.list_decision_branches refl
  where
    go :
        (r : Result (List String))
        → reader.list_decision_branches ≡ r
        → IsConsistent (load_from_git reader project mg).1
    go (err e) h = rw h c
    go (ok branches) h = rw h (
        add_read-IsConsistent project (reader.read_decision project "general" dummy_sdr_id)
          (load_branches reader project branches mg)
          (load_branches-IsConsistent reader project branches mg c))
