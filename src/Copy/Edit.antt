-- ===== src/Copy/Edit.antt =====
-- clawmes/commands/copy.py: `_cmd_edit`. The tier is an argument.
use clawmes.Base.{
  String, Bool, true, false, Option, none, some, List, [], ◌∷◌, if◌then◌else◌, find_first,
  update_first, contains, str_eq,
}
use clawmes.Base.Check.{Check, bad, good, ◌>>=◌}
use clawmes.TokenGate.{Tier, holder, unlimited, is_tier}
use clawmes.Dca.{Values}
use clawmes.Copy.{
  Follow, Refusal, usage, needs_holder, needs_unlimited, bad_invert, unknown_field, not_found,
  Answer, refused, changed, is_mine,
}
use clawmes.Copy.Add.{
  Texts, unless, addresses_of, parse_blocklist, positive_eth, cap_of, slippage_of, max_failures_of,
}

abbrev pub editable : List String
editable =
    "eth_per_copy" ∷ "slippage_bps" ∷ "daily_cap_eth" ∷ "max_eth_total" ∷ "max_consecutive_failures"
    ∷ "blocklist" ∷ "invert" ∷ "extra_wallets" ∷ []

abbrev pub truthy : List String
truthy = "true" ∷ "yes" ∷ "on" ∷ "1" ∷ []

abbrev pub falsy : List String
falsy = "false" ∷ "no" ∷ "off" ∷ "0" ∷ []

module _ {F : Type 0} (values : Values F) (texts : Texts F) where
  unfoldable pub edit_cap : String → Check Refusal (Option F)
  edit_cap value =
      let given = cap_of values texts value in
      if str_eq (values.lower value) "none" then good none else given

  unfoldable pub edit_invert : Tier → String → Check Refusal Bool
  edit_invert tier value =
      let on : Check Refusal Bool = (do _ ← unless (is_tier holder tier) needs_holder; good true) in
      if contains (values.lower value) truthy
      then on
      else (if contains (values.lower value) falsy then good false else bad bad_invert)

  unfoldable pub edit_extras : Tier → String → Check Refusal (List String)
  edit_extras tier value =
      let given : Check Refusal (List String) = (do
        _ ← unless (is_tier unlimited tier) needs_unlimited
        addresses_of texts.strip values.lower (texts.split_comma value)) in
      if str_eq (values.lower value) "none" then good [] else given

  -- The follow with the new value of a field, for a field that is editable.
  unfoldable pub edit_follow : Tier → String → String → Follow F → Check Refusal (Follow F)
  edit_follow tier field value f =
      let eth : Check Refusal (Follow F) = (do
        v ← positive_eth values texts value
        good record f { eth_per_copy = v }) in
      let slippage : Check Refusal (Follow F) = (do
        v ← slippage_of values texts value
        good record f { slippage_bps = v }) in
      let daily : Check Refusal (Follow F) = (do
        v ← edit_cap value
        good record f { daily_cap_eth = v }) in
      let total : Check Refusal (Follow F) = (do
        v ← edit_cap value
        good record f { max_eth_total = v }) in
      let failures : Check Refusal (Follow F) = (do
        v ← max_failures_of values texts value
        good record f { max_consecutive_failures = v }) in
      let inverted : Check Refusal (Follow F) = (do
        v ← edit_invert tier value
        good record f { invert = v }) in
      let extras : Check Refusal (Follow F) = (do
        v ← edit_extras tier value
        good record f { extra_wallets = v }) in
      let blocked : Check Refusal (Follow F) =
        good record f { blocklist = parse_blocklist values texts value } in
      if str_eq field "eth_per_copy"
      then eth
      else (if str_eq field "slippage_bps"
          then slippage
          else (if str_eq field "daily_cap_eth"
              then daily
              else (if str_eq field "max_eth_total"
                  then total
                  else (if str_eq field "max_consecutive_failures"
                      then failures
                      else (if str_eq field "invert"
                          then inverted
                          else (if str_eq field "extra_wallets" then extras else blocked))))))

  unfoldable pub edit : Tier → String → List String → List (Follow F) → Answer × List (Follow F)
  edit tier sender [] follows = (refused usage, follows)
  edit tier sender (_ ∷ []) follows = (refused usage, follows)
  edit tier sender (_ ∷ _ ∷ []) follows = (refused usage, follows)
  edit tier sender (fid ∷ field ∷ value ∷ _) follows =
      let changes : Answer × List (Follow F) = (elim (find_first (is_mine fid sender) follows) [
        | none ↦ (refused not_found, follows)
        | some f ↦ elim (edit_follow tier field value f) [
          | bad r ↦ (refused r, follows)
          | good g ↦ (changed, update_first (is_mine fid sender) (λ _. g) follows)
        ]
      ]) in
      if contains field editable then changes else (refused unknown_field, follows)
