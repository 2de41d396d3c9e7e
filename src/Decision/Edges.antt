-- ===== src/Decision/Edges.antt =====
-- The relation edges of a decision under AddRelation and SetConflict (internal/decision/node.go).
use feishu_agent_mem.Prelude.{
  ℕ, ◌≤◌, String, List, [], ◌∷◌, ◌++◌, ◌≡◌, refl, Bool, true, false, any, count_if, count_if-append,
  arith, if◌then◌else◌, str_eq_refl, eq_iff, inl, inr, Bool-cases, ◌∙◌,
}
use feishu_agent_mem.Decision.Types.{
  RelationType, conflicts_with, relation_text, Relation, new_relation, DecisionNode,
}
use feishu_agent_mem.Decision.Node.{
  same_edge, add_relation, set_conflict, resolve_conflict, conflict_active, conflict_resolved,
}

-- How many edges of the decision have the type and the target.
abbrev pub edge_count : RelationType → String → DecisionNode → ℕ
edge_count type target d = count_if (same_edge type target) d.relations

-- No edge is there twice.
abbrev pub HasUniqueEdges : DecisionNode → Type 0
HasUniqueEdges d = (type : RelationType) (target : String) → edge_count type target d ≤ 1

zero_count_of_not_any :
    {A : Type 0} (p : A → Bool) (xs : List A) → any p xs ≡ false → count_if p xs ≡ 0
zero_count_of_not_any p [] h = refl
zero_count_of_not_any p (x ∷ xs) h = ground (arith, zero_count_of_not_any p xs)

pos_count_of_any : {A : Type 0} (p : A → Bool) (xs : List A) → any p xs ≡ true → 1 ≤ count_if p xs
pos_count_of_any p [] h = cc
pos_count_of_any p (x ∷ xs) h = ground (arith, pos_count_of_any p xs)

-- Two edges with the same type and target answer every query alike.
same_edge_alike :
    (type type' : RelationType) (target target' description : String) (r : Relation)
    → same_edge type target (new_relation type' target' description) ≡ true
    → same_edge type target r ≡ same_edge type' target' r
unfolding same_edge new_relation
same_edge_alike type type' target target' description r h =
    ground (arith, eq_iff (relation_text type') (relation_text type), eq_iff target' target)

count_alike :
    (type type' : RelationType) (target target' description : String) (rs : List Relation)
    → same_edge type target (new_relation type' target' description) ≡ true
    → count_if (same_edge type target) rs ≡ count_if (same_edge type' target') rs
count_alike type type' target target' description [] h = refl
count_alike type type' target target' description (r ∷ rs) h = ground (
  arith,
  count_alike type type' target target' description rs h,
  same_edge_alike type type' target target' description r h,
)

-- The list that `add_relation` writes.
abbrev added : RelationType → String → String → List Relation → List Relation
added type target description rs =
    if any (same_edge type target) rs then rs else rs ++ new_relation type target description ∷ []

module _ (type t : RelationType) (target g description : String) (rs : List Relation) where
  abbrev hit : Bool
  hit = same_edge t g (new_relation type target description)

  count-added-hit :
      count_if (same_edge t g) rs ≤ 1
      → hit ≡ true
      → count_if (same_edge t g) (added type target description rs) ≡ 1
  count-added-hit u h = elim (Bool-cases (any (same_edge type target) rs)) [
    | inl old ↦ rw old (
        omega (
          arith,
          u,
          pos_count_of_any (same_edge type target) rs old,
          count_alike t type g target description rs h,
        ))
    | inr new ↦
        rw (new, count_if-append, h)
          (omega (
            arith,
            zero_count_of_not_any (same_edge type target) rs new,
            count_alike t type g target description rs h,
          ))
  ]

  count-added-miss :
      hit ≡ false
      → count_if (same_edge t g) (added type target description rs) ≡ count_if (same_edge t g) rs
  count-added-miss h = elim (Bool-cases (any (same_edge type target) rs)) [
    | inl old ↦ rw old refl
    | inr new ↦ rw (new, count_if-append, h) (omega arith)
  ]

relations-add_relation :
    (d : DecisionNode) (type : RelationType) (target description : String)
    → (add_relation d type target description).relations ≡ added type target description d.relations
unfolding add_relation
relations-add_relation d type target description =
    elim (Bool-cases (any (same_edge type target) d.relations)) [
      | inl old ↦ rw old
      | inr new ↦ rw new
    ]

-- After `add_relation` the edge is there exactly once, and an edge of another type or target stands
-- as often as before, in a decision where no edge was doubled.
edge_count-add_relation :
    (d : DecisionNode) (type t : RelationType) (target g description : String)
    → HasUniqueEdges d
    → edge_count t g (add_relation d type target description)
      ≡ (if same_edge t g (new_relation type target description) then 1 else edge_count t g d)
edge_count-add_relation d type t target g description u =
    rw relations-add_relation (elim (Bool-cases (hit type t target g description d.relations)) [
      | inl h ↦ rw h (count-added-hit type t target g description d.relations (u t g) h)
      | inr h ↦ rw h (count-added-miss type t target g description d.relations h)
    ])

pub add_relation-HasUniqueEdges :
    (d : DecisionNode) (type : RelationType) (target description : String)
    → HasUniqueEdges d
    → HasUniqueEdges (add_relation d type target description)
add_relation-HasUniqueEdges d type target description u t g =
    rw (edge_count-add_relation d type t target g description u) (ground (arith, u t g))

-- `add_relation` writes the relations alone.
conflict-add_relation :
    (d : DecisionNode) (type : RelationType) (target description : String)
    → ((add_relation d type target description).conflict_status ≡ d.conflict_status)
      × ((add_relation d type target description).conflict_with ≡ d.conflict_with)
unfolding add_relation
conflict-add_relation d type target description =
    elim (Bool-cases (any (same_edge type target) d.relations)) [
      | inl old ↦ rw old (refl, refl)
      | inr new ↦ rw new (refl, refl)
    ]

same_edge_refl :
    (type : RelationType) (target description : String)
    → same_edge type target (new_relation type target description) ≡ true
unfolding same_edge new_relation
same_edge_refl type target description = simp str_eq_refl

set_conflict-HasUniqueEdges :
    (d : DecisionNode) (peer : String)
    → HasUniqueEdges d
    → (edge_count conflicts_with peer (set_conflict d peer) ≡ 1)
      × HasUniqueEdges (set_conflict d peer)
unfolding set_conflict
set_conflict-HasUniqueEdges d peer u = (
  edge_count-add_relation before conflicts_with conflicts_with peer peer "" u
      ∙ rw same_edge_refl refl,
  add_relation-HasUniqueEdges before conflicts_with peer "" u,
)
  where
    before : DecisionNode
    before = record d { conflict_status = conflict_active; conflict_with = peer }

-- Marking a conflict with another decision, in a decision where no edge is doubled, sets the status
-- and the peer, leaves exactly one CONFLICTS_WITH edge to the peer and keeps all edges single;
-- resolving it then clears the peer, sets the resolved status and keeps the edges.
conflict_cycle :
    (d : DecisionNode) (peer : String)
    → HasUniqueEdges d
    → let marked = set_conflict d peer in
      let cleared = resolve_conflict marked in
      (marked.conflict_status ≡ conflict_active)
      × (marked.conflict_with ≡ peer)
      × (edge_count conflicts_with peer marked ≡ 1)
      × HasUniqueEdges marked
      × (cleared.conflict_status ≡ conflict_resolved)
      × (cleared.conflict_with ≡ "")
      × (cleared.relations ≡ marked.relations)
unfolding set_conflict resolve_conflict
conflict_cycle d peer u =
    let before = record d { conflict_status = conflict_active; conflict_with = peer } in
    let fields = conflict-add_relation before conflicts_with peer "" in
    let edges = set_conflict-HasUniqueEdges d peer u in
    (fields.0, fields.1, edges.0, edges.1, refl, refl, refl)
