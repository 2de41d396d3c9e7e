-- ===== src/Signal/Uniqueness.antt =====
-- The generated ids against one another and against the recall's exact search
-- (internal/signal/state_machine.go, internal/recall/recall_engine.go).
use Prim.Native.Char.{code}
use Prim.Native.String.append
use text.Mathlib.TextLemmas.{append_cancel_left}
use feishu_agent_mem.Prelude.{
  ℕ, ◌+◌, ◌-◌, ◌%◌, ◌<◌, ◌≡◌, ◌↔◌, refl, ap, sym, ◌∙◌, arith, String, str_append, none,
  strip_prefix, [], if◌then◌else◌, Bool, true, false,
}
use feishu_agent_mem.Signal.Ids.{digit, generate_sdr_id}
use feishu_agent_mem.Graph.State.{MemoryGraph}
use feishu_agent_mem.Recall.Engine.{exact_cards}

abbrev digit_value : String → ℕ
digit_value String.[] = 0
digit_value (String.◌∷◌ c s) = code c - 48

digit_value-if :
    (b : Bool) (s t : String)
    → digit_value (if b then s else t) ≡ (if b then digit_value s else digit_value t)
digit_value-if true s t = refl
digit_value-if false s t = refl

digit_value-digit : (k : ℕ) → k < 10 → digit_value (digit k) ≡ k
unfolding digit
digit_value-digit k h =
    rw
      (
        digit_value-if, digit_value-if, digit_value-if, digit_value-if, digit_value-if,
        digit_value-if, digit_value-if, digit_value-if, digit_value-if,
      )
      (ground arith)

digit_injective : (m n : ℕ) → m < 10 → n < 10 → digit m ≡ digit n → m ≡ n
digit_injective m n a b h = sym (digit_value-digit m a) ∙ ap digit_value h ∙ digit_value-digit n b

-- Two ids of the same second are equal exactly when the counters behind them agree modulo ten.
pub generate_sdr_id_iff :
    (stamp : String) (i j : ℕ)
    → ((generate_sdr_id stamp i).0 ≡ (generate_sdr_id stamp j).0) ↔ ((i + 1) % 10 ≡ (j + 1) % 10)
unfolding generate_sdr_id
generate_sdr_id_iff stamp i j = (
  λ e.
      digit_injective ((i + 1) % 10) ((j + 1) % 10) (omega arith) (omega arith) (
        append_cancel_left "-" _ _
          (append_cancel_left stamp _ _ (append_cancel_left "DEC-" _ _ e))),
  λ e. ap (λ k. str_append "DEC-" (str_append stamp (str_append "-" (digit k)))) e,
)

strip_prefix-other : (rest : String) → strip_prefix "SDR-" (str_append "DEC-" rest) ≡ none
unfolding strip_prefix
strip_prefix-other rest = rw append.cons refl

-- The exact search of the recall finds no decision by a generated id, in any graph: it asks for the
-- prefix "SDR-", and the ids begin with "DEC-".
pub exact_cards-generate_sdr_id :
    (now : ℕ) (stamp : String) (id_counter : ℕ) (mg : MemoryGraph)
    → exact_cards now (generate_sdr_id stamp id_counter).0 mg ≡ []
unfolding exact_cards generate_sdr_id
exact_cards-generate_sdr_id now stamp id_counter mg = rw strip_prefix-other refl
