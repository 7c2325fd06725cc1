-- ===== src/Policy/Evaluator/FirstMatch.antt =====
-- `evaluate` against the rule that the module's documentation states: the first policy in storage
-- order that applies.
use clawmes.Base.{
  ℕ, subst, ◌≡◌, refl, sym, ap, ◌∙◌, ◌≢◌, ◌⊎◌, inl, inr, ◌↔◌, String, Bool, true, false, ◌||◌,
  Option, none, some, List, [], ◌∷◌, arith, eq_iff, eq_refl, contains, length, is_some, Bool-cases,
  Option-cases,
}
use clawmes.Base.Int.{ℤ, pos, ◌≤ℤ◌, leb_ℤ_iff}
use clawmes.Policy.Types.{
  ActionContext, Policy, Decision, described, matches_filters, has_quantitative_gates, eq_ℤ,
  chain_in, tools_match, chains_match,
}
use clawmes.Policy.Usage.{Buckets, window_seconds, count, evict, times_of, same_key}
use clawmes.Policy.Usage.Evict.{evict-evict}
use clawmes.Policy.Usage.Window.{times_of-count, count_value}
use clawmes.Policy.Evaluator.{
  amount_triggers, gate_triggers, decide, applies, evaluate, allow_decision,
}

-- `a` is one of the items.
abbrev pub Listed : {A : Type 0} → A → List A → Type 0
Listed a [] = ⊥
Listed a (x ∷ xs) = (a ≡ x) ⊎ Listed a xs

-- The filters of a policy: an empty list accepts every tool, or every chain.
abbrev pub Covers : Policy → ActionContext → Type 0
Covers p ctx =
    ((p.applies_to_tools ≡ []) ⊎ Listed ctx.tool_name p.applies_to_tools)
    × ((p.chain_ids ≡ []) ⊎ ((c : ℤ) × (ctx.chain_id ≡ some c) × Listed c p.chain_ids))

-- The gates of a policy, at `n` invocations in the window.
abbrev pub Triggers : Policy → ActionContext → ℕ → Type 0
Triggers p ctx n =
    ((p.max_amount_wei ≡ none) × (p.max_per_hour ≡ none))
    ⊎ (((m : ℤ) × (v : ℤ) × (p.max_amount_wei ≡ some m) × (ctx.value_wei ≡ some v) × (m ≤ℤ v))
        ⊎ ((k : ℤ) × (p.max_per_hour ≡ some k) × (k ≤ℤ pos n)))

abbrev pub Fires : Policy → ActionContext → ℕ → Type 0
Fires p ctx n = Covers p ctx × Triggers p ctx n

-- The invocations that the counter reports for the action's user and tool.
abbrev pub uses : ActionContext → ℕ → Buckets → ℕ
uses ctx now st = (count window_seconds ctx.user_id ctx.tool_name now st).0

-- What the rule says of a decision.
pub data Decides (ctx : ActionContext) (n : ℕ) : List Policy → Decision → Type 0 where
  by_default : Decides ctx n [] allow_decision
  by_first :
      (p : Policy) (rules : List Policy) (d : Decision)
      → Fires p ctx n
      → d.kind ≡ p.decision
      → d.policy_name ≡ p.name
      → (p.description ≢ "" → d.reason ≡ described p.description)
      → Decides ctx n (p ∷ rules) d
  by_later :
      (p : Policy) {rules : List Policy} {d : Decision}
      → ¬ Fires p ctx n
      → Decides ctx n rules d
      → Decides ctx n (p ∷ rules) d

pub contains_iff : (t : String) (texts : List String) → (contains t texts ≡ true) ↔ Listed t texts
contains_iff t [] = ground arith
contains_iff t (s ∷ texts) = ground (arith, eq_iff t s, contains_iff t texts)

pub eq_ℤ_iff : (a b : ℤ) → (eq_ℤ a b ≡ true) ↔ (a ≡ b)
eq_ℤ_iff a b = ground arith

chain_in_iff : (c : ℤ) (ids : List ℤ) → (chain_in (some c) ids ≡ true) ↔ Listed c ids
chain_in_iff c [] = ground arith
chain_in_iff c (i ∷ ids) = ground (arith, eq_ℤ_iff c i, chain_in_iff c ids)

tools_match_iff :
    (tools : List String) (t : String)
    → (tools_match tools t ≡ true) ↔ ((tools ≡ []) ⊎ Listed t tools)
tools_match_iff [] t = ground arith
tools_match_iff (s ∷ tools) t = ground (arith, contains_iff t (s ∷ tools))

some_injective : (a b : ℤ) → some a ≡ some b → a ≡ b
some_injective a b h = ground arith

chains_match_iff :
    (ids : List ℤ) (o : Option ℤ)
    → (chains_match ids o ≡ true) ↔ ((ids ≡ []) ⊎ ((c : ℤ) × (o ≡ some c) × Listed c ids))
chains_match_iff [] o = (λ h. inl refl, λ h. refl)
chains_match_iff (i ∷ ids) none =
    (λ h. ground arith, λ h. elim h [ inl e ↦ ground arith | inr (c, e, l) ↦ ground arith ])
chains_match_iff (i ∷ ids) (some c) =
    let e = chain_in_iff c (i ∷ ids) in
    (
      λ h. inr (c, refl, e.0 h),
      λ h. elim h [
        | inl none_there ↦ ground arith
        | inr (c', same, l) ↦
            e.1 (subst (λ x. Listed x (i ∷ ids)) (sym (some_injective c c' same)) l)
      ],
    )

matches_filters_iff :
    (p : Policy) (ctx : ActionContext) → (matches_filters p ctx ≡ true) ↔ Covers p ctx
unfolding matches_filters
matches_filters_iff p ctx = ground (
  arith,
  tools_match_iff p.applies_to_tools ctx.tool_name,
  chains_match_iff p.chain_ids ctx.chain_id,
)

amount_triggers_iff :
    (m v : Option ℤ)
    → (amount_triggers m v ≡ true) ↔ ((a : ℤ) × (b : ℤ) × (m ≡ some a) × (v ≡ some b) × (a ≤ℤ b))
unfolding amount_triggers
amount_triggers_iff none none = (λ h. ground arith, λ (a, b, e, f, le). ground arith)
amount_triggers_iff none (some v) = (λ h. ground arith, λ (a, b, e, f, le). ground arith)
amount_triggers_iff (some m) none = (λ h. ground arith, λ (a, b, e, f, le). ground arith)
amount_triggers_iff (some m) (some v) =
    let i = leb_ℤ_iff m v in
    (
      λ h. (m, v, refl, refl, i.0 h),
      λ (a, b, e, f, le). i.1 (rw (some_injective m a e, some_injective v b f) le),
    )

-- The counter is unchanged, as far as this key can see.
uses-count :
    (ctx : ActionContext) (now : ℕ) (st : Buckets)
    → uses ctx now (count window_seconds ctx.user_id ctx.tool_name now st).1 ≡ uses ctx now st
uses-count ctx now st =
    let u : String = ctx.user_id in
    let t : String = ctx.tool_name in
    let after : Buckets = (count window_seconds u t now st).1 in
    let same : same_key u t u t ≡ true = ground (arith, eq_refl u, eq_refl t) in
    let kept : times_of u t after ≡ evict window_seconds now (times_of u t st) =
      rw same at (times_of-count window_seconds u t u t now st) in
    count_value window_seconds u t now after
    ∙ ap (λ l. length (evict window_seconds now l)) kept
    ∙ ap length (evict-evict window_seconds now now (times_of u t st) (omega arith))
    ∙ sym (count_value window_seconds u t now st)

-- What asking one policy gives: the test is `Fires`, and the key's count stays.
abbrev Asks : Policy → ActionContext → ℕ → Buckets → Bool × Buckets → Type 0
Asks p ctx now st r =
    ((r.0 ≡ true) ↔ Fires p ctx (uses ctx now st)) × (uses ctx now r.1 ≡ uses ctx now st)

gate_triggers-Asks :
    (p : Policy) (ctx : ActionContext) (now : ℕ) (st : Buckets)
    → has_quantitative_gates p ≡ true
    → Covers p ctx
    → Asks p ctx now st (gate_triggers p ctx now st)
gate_triggers-Asks p ctx now st h cov =
    let am = amount_triggers_iff p.max_amount_wei ctx.value_wei in
    let gated : (is_some p.max_amount_wei || is_some p.max_per_hour) ≡ true =
      unfold has_quantitative_gates in h in
    elim (Bool-cases (amount_triggers p.max_amount_wei ctx.value_wei)) [
      | inl hit ↦
          unfold gate_triggers in rw hit (((λ _. (cov, inr (inl (am.0 hit))), λ _. refl), refl))
      | inr miss ↦ elim (Option-cases p.max_per_hour) [
        | inl no_rate ↦
            unfold gate_triggers in
            rw (miss, no_rate) ((λ e. ground arith, λ (c, f). ground (arith, am.1)), refl)
        | inr (k, rate) ↦
            unfold gate_triggers in
            rw (miss, rate)
              (
                (
                  λ e. (cov, inr (inr (k, refl, (leb_ℤ_iff k (pos (uses ctx now st))).0 e))),
                  λ (c, f). elim f [
                    | inl (_, never) ↦ ground arith
                    | inr (inl amount) ↦ ground (arith, am.1 amount)
                    | inr (inr (k', same, le)) ↦ (leb_ℤ_iff k (pos (uses ctx now st))).1 (
                        subst (λ x. x ≤ℤ pos (uses ctx now st)) (sym (some_injective k k' same)) le)
                  ],
                ),
                uses-count ctx now st,
              )
      ]
    ]

ungated : (m k : Option ℤ) → (is_some m || is_some k) ≡ false → (m ≡ none) × (k ≡ none)
ungated none none h = (refl, refl)
ungated none (some k) h = ground arith
ungated (some m) k h = ground arith

applies-Asks :
    (p : Policy) (ctx : ActionContext) (now : ℕ) (st : Buckets)
    → Asks p ctx now st (applies p ctx now st)
applies-Asks p ctx now st =
    let mf = matches_filters_iff p ctx in
    elim (Bool-cases (matches_filters p ctx)) [
      | inr miss ↦
          unfold applies in rw miss ((λ h. ground arith, λ f. ground (arith, mf.1 f.0)), refl)
      | inl hit ↦ elim (Bool-cases (has_quantitative_gates p)) [
        | inl gated ↦
            unfold applies in rw (hit, gated) (gate_triggers-Asks p ctx now st gated (mf.0 hit))
        | inr open_ ↦
            unfold applies in
            rw (hit, open_)
              (
                (
                  λ _. (
                    mf.0 hit,
                    inl (
                        ungated p.max_amount_wei p.max_per_hour
                          (unfold has_quantitative_gates in open_)),
                  ),
                  λ _. refl,
                ),
                refl,
              )
      ]
    ]

-- What `decide` gives of its policy.
decide_names :
    (p : Policy) (ctx : ActionContext) (now : ℕ) (st : Buckets)
    → let d = (decide p ctx now st).0 in
      (d.kind ≡ p.decision)
      × (d.policy_name ≡ p.name)
      × (p.description ≢ "" → d.reason ≡ described p.description)
unfolding decide
decide_names p ctx now st = (refl, refl, λ h. ground (arith, eq_iff p.description ""))

Decides-uses :
    {ctx : ActionContext} {m n : ℕ} {rules : List Policy} {d : Decision}
    → m ≡ n
    → Decides ctx m rules d
    → Decides ctx n rules d
Decides-uses {ctx} {m} {n} {rules} {d} e h = subst (λ k. Decides ctx k rules d) e h

-- The decision of `evaluate` is that of the first policy in storage order whose filters cover the
-- action and which has no gate, an amount gate at or below the action's value, or a rate gate at or
-- below the invocations counted for the user and tool; it carries that policy's kind, name and
-- non-empty description, and it is `allow` if there is no such policy.
pub evaluate-Decides :
    (ctx : ActionContext) (rules : List Policy) (now : ℕ) (st : Buckets)
    → Decides ctx (uses ctx now st) rules (evaluate ctx rules now st).0
unfolding evaluate
evaluate-Decides ctx [] now st = by_default
evaluate-Decides ctx (p ∷ rules) now st =
    let (asked, kept) = applies-Asks p ctx now st in
    let rest = evaluate-Decides ctx rules now (applies p ctx now st).1 in
    elim (Bool-cases (applies p ctx now st).0) [
      | inl hit ↦
          let names = decide_names p ctx now (applies p ctx now st).1 in
          rw hit (by_first p rules _ (asked.0 hit) names.0 names.1 names.2)
      | inr miss ↦ rw miss (by_later p (λ f. ground (arith, asked.1 f)) (Decides-uses kept rest))
    ]
