-- ===== src/Signal/Router.antt =====
-- The activation router (internal/signal/router.go). A weight is a float64 in the source; each is a
-- number of tenths, and so are the thresholds, and the sums 0.8 + 0.3, 0.5 + 0.3, 0.5 + 0.2, 0.2 + 0.3
-- and 0.2 + 0.2 round to the floats of the decimal sums, so that every comparison has the same answer.
use feishu_agent_mem.Prelude.{
  ℕ, ◌+◌, min, String, str_append, str_eq, List, [], ◌∷◌, leb, if◌then◌else◌,
}
use feishu_agent_mem.Signal.Types.{
  AdapterType, im, vc, docs, calendar, task, okr, contact, wiki, SignalStrength, strong, medium,
  weak, StateChangeSignal,
}

unfoldable pub adapter_text : AdapterType → String
adapter_text im = "IM"
adapter_text vc = "VC"
adapter_text docs = "Docs"
adapter_text calendar = "Calendar"
adapter_text task = "Task"
adapter_text okr = "OKR"
adapter_text contact = "Contact"
adapter_text wiki = "Wiki"
adapter_text (AdapterType.other s) = s

abbrev pub adapters : List AdapterType
adapters = im ∷ vc ∷ docs ∷ calendar ∷ task ∷ okr ∷ contact ∷ wiki ∷ []

abbrev pub adapter_minutes : AdapterType
adapter_minutes = AdapterType.other "Minutes"

abbrev base_weight : SignalStrength → ℕ
base_weight strong = 8
base_weight medium = 5
base_weight weak = 2
base_weight (SignalStrength.other s) = 0

-- The entry of `relatedPairs`, 0 where there is none. The pair (VC, Minutes) meets no destination.
abbrev related_delta : AdapterType → AdapterType → ℕ
related_delta im vc = 3
related_delta docs wiki = 2
related_delta task okr = 2
related_delta calendar vc = 2
related_delta _ _ = 0

unfoldable pub get_default_weight : AdapterType → AdapterType → SignalStrength → ℕ
get_default_weight src dst strength = min 10 (base_weight strength + related_delta src dst)

-- The matrix has the eight adapters and the three strengths; any other entry reads as 0.
unfoldable pub matrix_weight : AdapterType → SignalStrength → AdapterType → ℕ
unfolding get_default_weight
matrix_weight (AdapterType.other s) strength dst = 0
matrix_weight src (SignalStrength.other s) dst = 0
matrix_weight src strength dst = get_default_weight src dst strength

pub data ActivationPriority : Type 0 where
  skip may should must : ActivationPriority

unfoldable pub get_priority : ℕ → ActivationPriority
get_priority weight =
    if leb 7 weight
    then must
    else if leb 4 weight
    then should
    else if leb 1 weight
    then may
    else skip

unfoldable pub get_token_budget : ActivationPriority → ℕ
get_token_budget must = 2000
get_token_budget should = 1000
get_token_budget may = 500
get_token_budget skip = 0

pub record ContextQuery : Type 0 where
  pub query_id : String
  pub target_adapter : AdapterType
  pub token_budget : ℕ
  pub priority : ℕ
  pub purpose : String

pub record ContextQueryPlan : Type 0 where
  pub signal_id : String
  pub total_token_budget : ℕ
  pub queries : List ContextQuery

-- One round of the loop in `Route`: the query that it appends, if any, before the later rounds.
unfoldable pub route_one :
    AdapterType → ActivationPriority → ℕ → (ℕ → List ContextQuery) → List ContextQuery
unfolding get_token_budget adapter_text
route_one adapter skip order rest = rest order
route_one adapter priority order rest =
    record {
      query_id = str_append "query-" (adapter_text adapter);
      target_adapter = adapter;
      token_budget = get_token_budget priority;
      priority = order;
      purpose = "context-gathering";
    }
    ∷ rest (order + 1)

unfoldable pub route_from : AdapterType → SignalStrength → List AdapterType → ℕ → List ContextQuery
unfolding route_one get_priority matrix_weight adapter_text
route_from source strength [] order = []
route_from source strength (adapter ∷ rest) order =
    if str_eq (adapter_text adapter) (adapter_text source)
    then route_from source strength rest order
    else route_one adapter (get_priority (matrix_weight source strength adapter)) order
        (route_from source strength rest)

unfoldable pub route : StateChangeSignal → ContextQueryPlan
unfolding route_from
route signal = record {
  signal_id = signal.signal_id;
  total_token_budget = 8000;
  queries = route_from signal.adapter signal.strength adapters 0;
}
