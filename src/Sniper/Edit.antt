-- ===== src/Sniper/Edit.antt =====
-- clawmes/commands/sniper.py: `_cmd_edit`.
use clawmes.Base.{
  String, Option, none, some, List, [], ◌∷◌, if◌then◌else◌, find_first, update_first, contains,
  str_eq,
}
use clawmes.Base.Check.{Check, bad, good, ◌>>=◌}
use clawmes.Sniper.{
  Config, Refusal, usage, bad_max_buys, bad_max_age, bad_regex, unknown_field, not_found, Answer,
  refused, changed, is_mine,
}
use clawmes.Sniper.Add.{Reads, positive_number, count_of, slippage_of, mcap_of}

abbrev pub editable : List String
editable =
    "eth_amount" ∷ "max_buys" ∷ "slippage_bps" ∷ "source_filter" ∷ "symbol_filter" ∷ "max_mcap_usd"
    ∷ "max_age_seconds" ∷ []

module _ {F : Type 0} (reads : Reads F) (lower : String → String) where
  abbrev pub edit_source : String → Option String
  edit_source value = if str_eq (lower value) "none" then none else some value

  unfoldable pub edit_symbol : String → Check Refusal (Option String)
  edit_symbol value =
      if str_eq (lower value) "none"
      then good none
      else (if reads.compiles value then good (some value) else bad bad_regex)

  unfoldable pub edit_mcap : String → Check Refusal (Option F)
  edit_mcap value =
      let given = mcap_of reads value in if str_eq (lower value) "none" then good none else given

  -- The configuration with the new value of a field, for a field that is editable.
  unfoldable pub edit_config : String → String → Config F → Check Refusal (Config F)
  edit_config field value c =
      let eth : Check Refusal (Config F) = (do
        v ← positive_number reads value
        good record c { eth_amount = v }) in
      let buys : Check Refusal (Config F) = (do
        v ← count_of reads bad_max_buys value
        good record c { max_buys = v }) in
      let slippage : Check Refusal (Config F) = (do
        v ← slippage_of reads value
        good record c { slippage_bps = v }) in
      let source : Check Refusal (Config F) = good record c { source_filter = edit_source value } in
      let symbol : Check Refusal (Config F) = (do
        v ← edit_symbol value
        good record c { symbol_filter = v }) in
      let mcap : Check Refusal (Config F) = (do
        v ← edit_mcap value
        good record c { max_mcap_usd = v }) in
      let age : Check Refusal (Config F) = (do
        v ← count_of reads bad_max_age value
        good record c { max_age_seconds = v }) in
      if str_eq field "eth_amount"
      then eth
      else (if str_eq field "max_buys"
          then buys
          else (if str_eq field "slippage_bps"
              then slippage
              else (if str_eq field "source_filter"
                  then source
                  else (if str_eq field "symbol_filter"
                      then symbol
                      else (if str_eq field "max_mcap_usd" then mcap else age)))))

  unfoldable pub edit : String → List String → List (Config F) → Answer × List (Config F)
  edit sender [] configs = (refused usage, configs)
  edit sender (_ ∷ []) configs = (refused usage, configs)
  edit sender (_ ∷ _ ∷ []) configs = (refused usage, configs)
  edit sender (cid ∷ field ∷ value ∷ _) configs =
      let changes : Answer × List (Config F) = (elim (find_first (is_mine cid sender) configs) [
        | none ↦ (refused not_found, configs)
        | some c ↦ elim (edit_config field value c) [
          | bad r ↦ (refused r, configs)
          | good d ↦ (changed, update_first (is_mine cid sender) (λ _. d) configs)
        ]
      ]) in
      if contains field editable then changes else (refused unknown_field, configs)
