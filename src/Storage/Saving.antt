-- ===== src/Storage/Saving.antt =====
-- What a commit and the save of a decision leave as it is (internal/storage/git/git_storage.go and
-- git_ops.go).
use feishu_agent_mem.Prelude.{
  ◌≡◌, refl, ◌∙◌, sym, String, List, [], ◌∷◌, Bool-cases, Option-cases, Result-cases, inl, inr,
  contains, codes, subst,
}
use feishu_agent_mem.Storage.Cli.{World, then_call, run, commit_path, get_head_hash}
use feishu_agent_mem.Storage.Laws.{
  IsLawful, Command, words, add_file, make_commit, ask_head, current,
}

module _ (W : World) where
  -- What a call leaves behind is what git leaves behind.
  pub state-run : (args : List String) (s : W.State) → (run W args s).1 ≡ (W.git args s).1
  unfolding run
  state-run args s = elim (Option-cases (W.git args s).0.failure) [
    | inl e ↦ rw (e, run) refl
    | inr e ↦ rw (e.1, run) refl
  ]

  module _ {base path dir name : String} (law : IsLawful W base path dir name) where
    -- Settled still, with the same file and on the same branch.
    abbrev pub Stays : W.State → W.State → Type 0
    Stays s t =
        law.Settled t × (W.read_file path t ≡ W.read_file path s) × (current W t ≡ current W s)

    pub Stays-trans : (s t u : W.State) → Stays s t → Stays t u → Stays s u
    Stays-trans s t u h i = (i.0, i.1 ∙ h.1, i.2 ∙ h.2)

    pub Stays-run :
        (c : Command) (s : W.State) → law.Settled s → Stays s (run W (words base path name c) s).1
    Stays-run c s h =
        subst (Stays s) (sym (state-run (words base path name c) s))
          (law.settled-git c s h, law.read-git c s h, law.current-git c s h)

    Stays-head : (s : W.State) → law.Settled s → Stays s (get_head_hash W s).1
    unfolding get_head_hash words
    Stays-head s h = Stays-run ask_head s h

    pub Stays-commit_path :
        (message : String) (s : W.State) → law.Settled s → Stays s (commit_path W path message s).1
    unfolding commit_path then_call words
    Stays-commit_path message s h =
        let added = (run W ("add" ∷ path ∷ []) s).1 in
        let made = run W ("commit" ∷ "-m" ∷ message ∷ []) added in
        let one = Stays-run add_file s h in
        let two = Stays-trans s added made.1 one (Stays-run (make_commit message) added one.0) in
        let three = Stays-trans s made.1 (get_head_hash W made.1).1 two (Stays-head made.1 two.0) in
        elim (Result-cases (run W ("add" ∷ path ∷ []) s).0) [
          | inl e ↦ rw (e.1, commit_path, then_call) one
          | inr fine ↦ elim (Result-cases made.0) [
            | inr hash ↦ rw (fine.1, commit_path, then_call, hash.1) three
            | inl e ↦ elim (Bool-cases (contains (codes e.0) (codes "nothing to commit"))) [
              | inl empty ↦ rw (fine.1, commit_path, then_call, e.1, empty) three
              | inr fault ↦ rw (fine.1, commit_path, then_call, e.1, fault) two
            ]
          ]
        ]
