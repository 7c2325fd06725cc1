-- ===== src/Copy/Faithful.antt =====
-- What a round of the copy trader does to a follow.
pub mod Rounds
use clawmes.Base.{
  ℕ, suc, ◌+◌, ◌≡◌, refl, sym, subst, ◌⊎◌, inl, inr, String, Bool, true, false, ◌&&◌, not, Option,
  none, some, List, [], ◌∷◌, ◌++◌, ◌==◌, if◌then◌else◌, All, All-append, Bool-cases, Option-cases,
  Pairwise, none_left, pair, take, keep_if, contains, str_eq,
}
use clawmes.Dca.{Values}
use clawmes.Dca.Tick.{is_over}
use clawmes.Copy.{
  Status, paused, Result, ok, Outcome, blocklisted, bought, sold, Execution, Follow,
  max_tx_per_tick, is_active,
}
use clawmes.Copy.Engine.{
  Tx, Market, result_of, is_ok, is_streak, maybe_auto_pause, compute_copy_amount, capped,
  execute_copy, execute_sell, is_over_total, is_over_daily, is_incoming, is_outgoing, act,
}
use clawmes.Copy.Tick.{
  Round, raise_block, add_spend, append_run, note, process_txs, is_relevant, process_wallets, start,
  finish, all_watched_wallets, process_follow, run_follow, run_follows, run_due,
}

abbrev pub advance : {F : Type 0} → List (Execution F) → F → ℕ → Status → Follow F → Follow F
advance executions total block_no status f = record f {
  executions = executions;
  total_eth_spent = total;
  last_seen_block = block_no;
  status = status;
}

module _ {F : Type 0} (values : Values F) where
  -- An amount that a follow may spend on one copy.
  unfoldable pub IsSized : Follow F → F → Type 0
  IsSized f amount = (amount ≡ f.eth_per_copy) ⊎ (values.exceeds amount f.eth_per_copy ≡ false)

  -- What an outcome for a token must agree with: a token is passed over only if it is on the block
  -- list, it is bought or sold only if it is not, a buy is of an allowed amount, and a sell needs
  -- `invert`.
  unfoldable pub IsFaithful : Follow F → String → Outcome F → Type 0
  IsFaithful f token blocklisted = contains token f.blocklist ≡ true
  IsFaithful f token (bought amount result) =
      (contains token f.blocklist ≡ false) × IsSized f amount
  IsFaithful f token (sold result) = (contains token f.blocklist ≡ false) × (f.invert ≡ true)

  unfoldable pub IsFaithfulRun : Follow F → Execution F → Type 0
  IsFaithfulRun f r = IsFaithful f r.token r.outcome

  -- The spend does not exceed the cap of a follow.
  unfoldable pub IsWithinTotal : Follow F → F → Type 0
  IsWithinTotal f spent = (cap : F) → f.max_eth_total ≡ some cap → values.exceeds spent cap ≡ false

  -- A follow after a round: faithful executions are added, the spend stays within its cap if it was,
  -- and besides the last block and the status nothing else is changed.
  pub data Grows (f : Follow F) : Follow F → Type 0 where
    grown :
        (new : List (Execution F)) (total : F) (block_no : ℕ) (status : Status)
        → All (IsFaithfulRun f) new
        → (IsWithinTotal f f.total_eth_spent → IsWithinTotal f total)
        → Grows f (advance (f.executions ++ new) total block_no status f)

  append_nil : {A : Type 0} (xs : List A) → xs ++ [] ≡ xs
  append_nil [] = refl
  append_nil (x ∷ xs) = rw (append_nil xs) refl

  append_assoc : {A : Type 0} (xs ys zs : List A) → (xs ++ ys) ++ zs ≡ xs ++ (ys ++ zs)
  append_assoc [] ys zs = refl
  append_assoc (x ∷ xs) ys zs = rw (append_assoc xs ys zs) refl

  pub Grows-refl : (f : Follow F) → Grows f f
  Grows-refl f =
      subst (λ xs. Grows f (advance xs f.total_eth_spent f.last_seen_block f.status f))
        (append_nil f.executions)
        (grown [] f.total_eth_spent f.last_seen_block f.status tt (λ h. h))

  grown_run :
      (f : Follow F) (new : List (Execution F)) (r : Execution F) (total : F) (block_no : ℕ)
      (status : Status)
      → All (IsFaithfulRun f) new
      → IsFaithfulRun f r
      → (IsWithinTotal f f.total_eth_spent → IsWithinTotal f total)
      → Grows f (advance ((f.executions ++ new) ++ r ∷ []) total block_no status f)
  grown_run f new r total block_no status faithful last within =
      subst (λ xs. Grows f (advance xs total block_no status f))
        (sym (append_assoc f.executions new (r ∷ [])))
        (grown (new ++ r ∷ []) total block_no status
          (All-append (IsFaithfulRun f) new (r ∷ []) faithful (last, tt)) within)

  -- What `act` may answer: besides a faithful outcome, that a buy that went through was within the
  -- cap on the whole spend.
  pub data Acts (f : Follow F) (token : String) : Option (Outcome F) → Type 0 where
    ignored : Acts f token none
    skipped : contains token f.blocklist ≡ true → Acts f token (some blocklisted)
    copied :
        (amount : F) (result : Result)
        → contains token f.blocklist ≡ false
        → IsSized f amount
        → (is_ok result ≡ true → is_over values f.total_eth_spent amount f.max_eth_total ≡ false)
        → Acts f token (some (bought amount result))
    mirrored :
        (result : Result)
        → contains token f.blocklist ≡ false
        → f.invert ≡ true
        → Acts f token (some (sold result))

  pub note-Grows :
      (f g : Follow F) (at wallet : String) (t : Tx) (outcome : Outcome F)
      → Acts g t.token (some outcome)
      → Grows f g
      → Grows f (add_spend values outcome (append_run at wallet t outcome g))
  unfolding IsFaithfulRun IsFaithful IsSized IsWithinTotal
  note-Grows f _ at wallet t _ (skipped listed) (grown new total block_no status faithful within) =
      grown_run f new _ total block_no status faithful listed within
  note-Grows f _ at wallet t _ (mirrored result clear inverted)
        (grown new total block_no status faithful within) =
      grown_run f new _ total block_no status faithful (clear, inverted) within
  note-Grows f _ at wallet t _ (copied amount result clear sized fits)
        (grown new total block_no status faithful within) =
      elim (Bool-cases (is_ok result)) [
        | inr other ↦
            rw other (grown_run f new _ total block_no status faithful (clear, sized) within)
        | inl fine ↦ rw fine (
            grown_run f new _ (values.plus total amount) block_no status faithful (clear, sized)
              (λ _ cap e.
                (let here : is_over values total amount (some cap) ≡ false =
                    rw (sym e) (fits fine) in
                  here)))
      ]
