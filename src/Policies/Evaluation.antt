-- ===== src/Policies/Evaluation.antt =====
-- `evaluate` of policies.service.ts against the policies of the organization.
use expenseflow.Common.{
  ◌≤◌, ◌⊎◌, text_eq_iff, Option, none, some, ℕ, ◌≡◌, ◌↔◌, refl, sym, ap, ◌∙◌, subst, Text,
  text_is_eq, List, [], ◌∷◌, Bool, true, ◌==◌, any, keep, In, inl, inr, Bool-cases, ok, arith,
}
use expenseflow.Schema.{Policy, PolicyAction, Store, action_eq, action_same_iff}
use expenseflow.Database.{Client, IsClient}
use expenseflow.Policies.{
  PolicyEvaluation, policy_matches, min_match, max_match, category_match, summarize, is_active_in,
  by_priority, evaluate,
}

any_iff :
    {A : Type 0} (p : A → Bool) (xs : List A)
    → (any p xs ≡ true) ↔ ((x : A) × In x xs × (p x ≡ true))
any_iff p [] = (λ e. absurd (cc), λ h. let (y, m, q) = h in absurd m)
any_iff p (x ∷ xs) = (
  λ e. elim (Bool-cases (p x)) [
    | inl h ↦ (x, inl refl, h)
    | inr h ↦ let (y, m, q) = (any_iff p xs).0 (ground arith) in (y, inr m, q)
  ],
  λ h.
      let (y, m, q) = h in
      elim m [
        | inl same ↦ let here : p x ≡ true = subst (λ z. p z ≡ true) same q in ground arith
        | inr n ↦ let there = (any_iff p xs).1 (y, n, q) in ground arith
      ],
)

keep_iff :
    {A : Type 0} (p : A → Bool) (xs : List A) (a : A) → In a (keep p xs) ↔ (In a xs × (p a ≡ true))
keep_iff p [] a = ground arith
keep_iff p (x ∷ xs) a = elim (Bool-cases (p x)) [
  | inl h ↦ rw h (
    λ m. elim m [
      | inl same ↦ (inl same, subst (λ z. p z ≡ true) (sym same) h)
      | inr n ↦ let (k, q) = (keep_iff p xs a).0 n in (inr k, q)
    ],
    λ m. elim m.0 [ inl same ↦ inl same | inr n ↦ inr ((keep_iff p xs a).1 (n, m.1)) ],
  )
  | inr h ↦ rw h (
    λ m. let (k, q) = (keep_iff p xs a).0 m in (inr k, q),
    λ m. elim m.0 [
      | inl same ↦ absurd (cc (h, ap p same, m.1))
      | inr n ↦ (keep_iff p xs a).1 (n, m.1)
    ],
  )
]

-- The evaluation's answer for an action: whether some policy of the action is in force.
abbrev pub flag : PolicyAction → PolicyEvaluation → Bool
flag PolicyAction.auto_reject e = e.auto_reject
flag PolicyAction.require_manager e = e.require_manager
flag PolicyAction.require_finance e = e.require_finance

-- A bound that is not given holds; one that is given holds with equality.
abbrev pub IsAtLeast : ℕ → Option ℕ → Type 0
IsAtLeast amount none = Unit {0}
IsAtLeast amount (some least) = least ≤ amount

abbrev pub IsAtMost : ℕ → Option ℕ → Type 0
IsAtMost amount none = Unit {0}
IsAtMost amount (some most) = amount ≤ most

-- A category that is not given or empty is every category; another is compared in lower case.
abbrev pub IsOfCategory : (Text → Text) → Text → Option Text → Type 0
IsOfCategory lower category none = Unit {0}
IsOfCategory lower category (some c) = (c ≡ []) ⊎ (lower c ≡ lower category)

-- An active policy of the organization that the amount and the category meet.
pub record IsInForce (lower : Text → Text) (organization_id : Text) (amount : ℕ) (category : Text)
    (policies : List Policy) (policy : Policy) : Type 0 where
  pub stored : In policy policies
  pub of_organization : policy.organization_id ≡ organization_id
  pub is_active : policy.active ≡ true
  pub of_category : IsOfCategory lower category policy.category
  pub at_least : IsAtLeast amount policy.min_amount_cents
  pub at_most : IsAtMost amount policy.max_amount_cents

min_match-IsAtLeast :
    (amount : ℕ) (bound : Option ℕ) → (min_match amount bound ≡ true) ↔ IsAtLeast amount bound
min_match-IsAtLeast amount none = (λ e. tt, λ h. refl)
min_match-IsAtLeast amount (some least) = (λ e. ground arith, λ h. ground arith)

max_match-IsAtMost :
    (amount : ℕ) (bound : Option ℕ) → (max_match amount bound ≡ true) ↔ IsAtMost amount bound
max_match-IsAtMost amount none = (λ e. tt, λ h. refl)
max_match-IsAtMost amount (some most) = (λ e. ground arith, λ h. ground arith)

category_match-IsOfCategory :
    (lower : Text → Text) (category : Text) (given : Option Text)
    → (category_match lower category given ≡ true) ↔ IsOfCategory lower category given
category_match-IsOfCategory lower category none = (λ e. tt, λ h. refl)
category_match-IsOfCategory lower category (some []) = (λ e. inl refl, λ h. refl)
category_match-IsOfCategory lower category (some (c ∷ t)) = (
  λ e. inr ((text_eq_iff (lower (c ∷ t)) (lower category)).0 e),
  λ h. elim h [
    | inl empty ↦ absurd (cc (empty))
    | inr same ↦ (text_eq_iff (lower (c ∷ t)) (lower category)).1 same
  ],
)

policy_matches-IsInForce :
    (lower : Text → Text) (organization_id : Text) (amount : ℕ) (category : Text)
    (policies : List Policy) (policy : Policy)
    → (In policy policies
        × (is_active_in organization_id policy ≡ true)
        × (policy_matches lower amount category policy ≡ true))
      ↔ IsInForce lower organization_id amount category policies policy
unfolding policy_matches
policy_matches-IsInForce lower organization_id amount category policies policy = (
  λ h.
      let (m, active, matches) = h in
      record {
        stored = m;
        of_organization = (text_eq_iff policy.organization_id organization_id).0 (ground arith);
        is_active = ground arith;
        of_category = (category_match-IsOfCategory lower category policy.category).0 (ground arith);
        at_least = (min_match-IsAtLeast amount policy.min_amount_cents).0 (ground arith);
        at_most = (max_match-IsAtMost amount policy.max_amount_cents).0 (ground arith);
      },
  λ h. (
    h.stored,
    rw ((text_eq_iff policy.organization_id organization_id).1 h.of_organization, h.is_active) refl,
    rw
        (
          (category_match-IsOfCategory lower category policy.category).1 h.of_category,
          (min_match-IsAtLeast amount policy.min_amount_cents).1 h.at_least,
          (max_match-IsAtMost amount policy.max_amount_cents).1 h.at_most,
        )
        refl,
  ),
)

module _ (lower : Text → Text) (organization_id : Text) (amount : ℕ) (category : Text) where
  flag-summarize :
      (action : PolicyAction) (found : List Policy)
      → flag action (summarize lower amount category found)
        ≡ any
            (λ policy. policy.action == action)
            (keep (policy_matches lower amount category) found)
  unfolding summarize
  flag-summarize PolicyAction.auto_reject found = refl
  flag-summarize PolicyAction.require_manager found = refl
  flag-summarize PolicyAction.require_finance found = refl

  -- `evaluate` always answers without changing the store, and it sets the flag of an action
  -- exactly when some policy of the organization that is active has that action, whose least and
  -- most amounts, where given, have the amount between them, both included, and whose category,
  -- where given and not empty, is the same in lower case.
  pub evaluate_lem :
      (db : Client) (laws : IsClient db) (action : PolicyAction) (s : Store)
      → (evaluation : PolicyEvaluation) × (evaluate db lower organization_id amount category s
          ≡ (ok evaluation, s))
        × ((flag action evaluation ≡ true) ↔ (
            (policy : Policy) × IsInForce lower organization_id amount category s.policies policy
            × (policy.action ≡ action)))
  unfolding evaluate
  evaluate_lem db laws action s =
      let active = is_active_in organization_id in
      let found = db.find_many by_priority active s.policies in
      let matches = policy_matches lower amount category in
      let has_action : Policy → Bool = λ policy. policy.action == action in
      let flagged = flag-summarize action found in
      (
        summarize lower amount category found,
        refl,
        (
          λ e.
              let (policy, m, q) = (any_iff has_action (keep matches found)).0 (sym flagged ∙ e) in
              let (n, matching) = (keep_iff matches found policy).0 m in
              let (k, is_active) = laws.find_many_sound by_priority active s.policies policy n in
              (
                policy,
                (policy_matches-IsInForce lower organization_id amount category s.policies policy).0
                    (k, is_active, matching),
                (action_same_iff policy.action action).0 q,
              ),
          λ h.
              let (policy, in_force, q) = h in
              let (k, is_active, matching) =
                (policy_matches-IsInForce lower organization_id amount category s.policies policy).1
                  in_force in
              let n = laws.find_many_complete by_priority active s.policies policy k is_active in
              flagged
              ∙ (any_iff has_action (keep matches found)).1 (
                policy,
                (keep_iff matches found policy).1 (n, matching),
                (action_same_iff policy.action action).1 q,
              ),
        ),
      )
