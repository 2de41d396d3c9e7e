-- ===== src/Push/Cooldown.antt =====
-- The cooldown of a pushed decision (internal/push/push.go).
use feishu_agent_mem.Prelude.{
  ℕ, ◌+◌, ◌≤◌, ◌≡◌, refl, ◌∙◌, ap, sym, subst, arith, String, str_eq_refl, List, [], ◌∷◌, ◌++◌,
  length, length-append, All, false, none, some, Option-cases, Bool-cases, inl, inr, ◌⊎◌, lookup,
  lookup-insert, Result-cases, is_empty,
}
use feishu_agent_mem.Decision.Types.{DecisionNode}
use feishu_agent_mem.Graph.Queries.{get_decision}
use feishu_agent_mem.Recall.HotScore.{calculate}
use feishu_agent_mem.Push.Engine.{
  Outside, PushEngine, is_cool, can_push, can_push_content, mark_pushed, mark_pushed_content,
  send_to_feishu, send_card, push_found, push_decision_card, notify_decision_update,
  decision_content_hash,
}

-- The last clock reading of a list of pushes.
abbrev pub IsUntil : ℕ → List (String × ℕ) → Type 0
IsUntil end = All (λ (c : String × ℕ). c.1 ≤ end)

abbrev pub IsSince : ℕ → List (String × ℕ) → Type 0
IsSince start = All (λ (c : String × ℕ). start ≤ c.1)

IsUntil-le : (a b : ℕ) (chats : List (String × ℕ)) → a ≤ b → IsUntil a chats → IsUntil b chats
IsUntil-le a b [] h u = tt
IsUntil-le a b (c ∷ chats) h u = (omega (arith, h, u.0), IsUntil-le a b chats h u.1)

module _ (O : Outside) where
  -- Marked at `last`, and one text longer than before, under the same cooldown.
  record IsPushed (sdr_id : String) (last : ℕ) (pe after : PushEngine) : Type 0 where
    marked : lookup sdr_id after.pushed_decisions ≡ some last
    longer : length after.sent ≡ length pe.sent + 1
    cooldown : after.push_cooldown ≡ pe.push_cooldown

  send_to_feishu_ok :
      (chat_id text : String) (pe : PushEngine)
      → (send_to_feishu O chat_id text pe
          ≡ (none, record pe { sent = pe.sent ++ (chat_id, text) ∷ [] }))
        ⊎ ((e : String) × (send_to_feishu O chat_id text pe ≡ (some e, pe)))
  unfolding send_to_feishu
  send_to_feishu_ok chat_id text pe = elim (Bool-cases (is_empty chat_id)) [
    | inl empty ↦ rw empty (inr (_, refl))
    | inr named ↦ elim (Option-cases (O.deliver chat_id text pe.sent)) [
      | inl fine ↦ rw (named, fine) (inl refl)
      | inr fault ↦ rw (named, fault.1) (inr (_, refl))
    ]
  ]

  send_card_ok :
      (now : ℕ) (chat_id : String) (d : DecisionNode) (sdr_id card : String) (pe : PushEngine)
      → ((send_card O now chat_id d sdr_id card pe).1 ≡ pe)
        ⊎ IsPushed sdr_id now pe (send_card O now chat_id d sdr_id card pe).1
  unfolding send_card mark_pushed mark_pushed_content
  send_card_ok now chat_id d sdr_id card pe = elim (send_to_feishu_ok chat_id card pe) [
    | inl fine ↦
        rw (fine, send_card, fine)
          (inr (record {
            marked =
                lookup-insert sdr_id sdr_id now pe.pushed_decisions ∙ rw (str_eq_refl sdr_id) refl;
            longer = length-append pe.sent ((chat_id, card) ∷ []);
            cooldown = refl;
          }))
    | inr fault ↦ rw (fault.1, send_card, fault.1) (inl refl)
  ]

  push_found_ok :
      (now : ℕ) (chat_id sdr_id : String) (d : DecisionNode) (pe : PushEngine)
      → ((push_found O now chat_id sdr_id d pe).1 ≡ pe)
        ⊎ IsPushed sdr_id now pe (push_found O now chat_id sdr_id d pe).1
  unfolding push_found
  push_found_ok now chat_id sdr_id d pe = elim (Bool-cases (can_push now sdr_id pe)) [
    | inr hot ↦ rw hot (inl refl)
    | inl cool ↦ elim (Bool-cases (can_push_content now (decision_content_hash O d) pe)) [
      | inr same ↦ rw (cool, same) (inl refl)
      | inl fresh ↦ elim (Result-cases (O.render_card d (calculate now d).0)) [
        | inl fault ↦ rw (cool, fresh, fault.1) (inl refl)
        | inr card ↦ rw (cool, fresh, card.1) (send_card_ok now chat_id d sdr_id card.0 pe)
      ]
    ]
  ]

  push_decision_card_ok :
      (now : ℕ) (chat_id sdr_id : String) (pe : PushEngine)
      → ((push_decision_card O now chat_id sdr_id pe).1 ≡ pe)
        ⊎ IsPushed sdr_id now pe (push_decision_card O now chat_id sdr_id pe).1
  unfolding push_decision_card
  push_decision_card_ok now chat_id sdr_id pe =
      elim (Option-cases (get_decision sdr_id pe.memory)) [
        | inl absent ↦ rw (absent, push_decision_card) (inl refl)
        | inr found ↦ rw (found.1, push_decision_card) (push_found_ok now chat_id sdr_id found.0 pe)
      ]

  can_push-last :
      (now last : ℕ) (sdr_id : String) (pe : PushEngine)
      → lookup sdr_id pe.pushed_decisions ≡ some last
      → now ≤ last + pe.push_cooldown
      → can_push now sdr_id pe ≡ false
  unfolding can_push is_cool
  can_push-last now last sdr_id pe e h = rw (e, is_cool) (ground (arith, h))

  -- A decision that was pushed is not pushed again until its cooldown is over, into no chat.
  push_decision_card-last :
      (now last : ℕ) (chat_id sdr_id : String) (pe : PushEngine)
      → lookup sdr_id pe.pushed_decisions ≡ some last
      → now ≤ last + pe.push_cooldown
      → (push_decision_card O now chat_id sdr_id pe).1 ≡ pe
  unfolding push_decision_card push_found
  push_decision_card-last now last chat_id sdr_id pe e h =
      elim (Option-cases (get_decision sdr_id pe.memory)) [
        | inl absent ↦ rw (absent, push_decision_card) refl
        | inr found ↦ rw (found.1, push_decision_card, can_push-last now last sdr_id pe e h) refl
      ]

  notify_decision_update-last :
      (chats : List (String × ℕ)) (node : DecisionNode) (last : ℕ) (pe : PushEngine)
      → lookup node.sdr_id pe.pushed_decisions ≡ some last
      → IsUntil (last + pe.push_cooldown) chats
      → notify_decision_update O chats node pe ≡ pe
  unfolding notify_decision_update
  notify_decision_update-last [] node last pe e h = refl
  notify_decision_update-last ((chat_id, now) ∷ chats) node last pe e h =
      rw (push_decision_card-last now last chat_id node.sdr_id pe e h.0)
        (notify_decision_update-last chats node last pe e h.1)

  -- However many chats a decision update is meant for, it sends at most one card, if the pushes lie
  -- within one cooldown.
  pub notify_decision_update_once :
      (chats : List (String × ℕ)) (node : DecisionNode) (start : ℕ) (pe : PushEngine)
      → IsSince start chats
      → IsUntil (start + pe.push_cooldown) chats
      → length (notify_decision_update O chats node pe).sent ≤ length pe.sent + 1
  unfolding notify_decision_update
  notify_decision_update_once [] node start pe s u = omega arith
  notify_decision_update_once ((chat_id, now) ∷ chats) node start pe s u =
      let next = (push_decision_card O now chat_id node.sdr_id pe).1 in
      elim (push_decision_card_ok now chat_id node.sdr_id pe) [
        | inl same ↦
            subst (λ e. length (notify_decision_update O chats node e).sent ≤ length pe.sent + 1)
              (sym same) (notify_decision_update_once chats node start pe s.1 u.1)
        | inr pushed ↦
            let quiet : notify_decision_update O chats node next ≡ next =
              notify_decision_update-last chats node now next pushed.marked (
                IsUntil-le (start + pe.push_cooldown) (now + next.push_cooldown) chats
                  (omega (arith, pushed.cooldown, s.0)) u.1) in
            omega (arith, ap (λ (e : PushEngine). length e.sent) quiet, pushed.longer)
      ]
