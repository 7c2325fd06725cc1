-- ===== src/Policy/Confirm/SingleUse.antt =====
-- What a confirmation nonce is worth: a nonce confirms its own action until it expires, and once.
use clawmes.Base.{
  ℕ, ◌+◌, ◌≡◌, refl, sym, ◌≢◌, inl, inr, String, Bool, true, false, none, some, [], ◌∷◌, ◌++◌,
  arith, ltb, if◌then◌else◌, keep_if, All-append, eq_iff, eq_refl, Bool-cases, Option-cases,
}
use clawmes.Policy.Types.{Args, ActionContext}
use clawmes.Policy.Confirm.{Pending, Store, fingerprint, gc, issue, take_match, consume}
use clawmes.Policy.Confirm.Taken.{
  IsFresh, IsDistinct, keep_if-IsFresh, keep_if-IsDistinct, take_match_fresh, Taken,
  take_match-Taken, Taken-IsFresh, Taken-IsDistinct, Taken-gone,
}

-- What `consume` did: it took out a live entry with the nonce and the fingerprint, or there is none.
data Consumes (n fp : String) (now : ℕ) (st : Store) : Bool × Store → Type 0 where
  taken : (rest : Store) → Taken n fp (gc now st) rest → Consumes n fp now st (true, rest)
  not_there : take_match n fp (gc now st) ≡ none → Consumes n fp now st (false, gc now st)

append-IsDistinct :
    (st : Store) (p : Pending) → IsDistinct st → IsFresh p.nonce st → IsDistinct (st ++ p ∷ [])
append-IsDistinct [] p d f = (tt, tt)
append-IsDistinct (q ∷ st) p d f = (
  All-append (λ r. r.nonce ≢ q.nonce) st (p ∷ []) d.0 (λ e. f.0 (sym e), tt),
  append-IsDistinct st p d.1 f.1,
)

-- The last entry is found when no other has its nonce.
take_match-last :
    (st : Store) (p : Pending)
    → IsFresh p.nonce st
    → take_match p.nonce p.fingerprint (st ++ p ∷ []) ≡ some st
unfolding take_match
take_match-last [] p f = ground (arith, eq_refl p.nonce, eq_refl p.fingerprint)
take_match-last (q ∷ st) p f = ground (arith, eq_iff q.nonce p.nonce, take_match-last st p f.1)

keep_if-append :
    (keep : Pending → Bool) (st : Store) (p : Pending)
    → keep_if keep (st ++ p ∷ []) ≡ (if keep p then keep_if keep st ++ p ∷ [] else keep_if keep st)
keep_if-append keep [] p = refl
keep_if-append keep (q ∷ st) p = ground (arith, keep_if-append keep st p)

module _ (render : String → Args → String) where
  consume-Consumes :
      (ctx : ActionContext) (n : String) (now : ℕ) (st : Store)
      → Consumes n (fingerprint render ctx) now st (consume render ctx n now st)
  unfolding consume
  consume-Consumes ctx n now st =
      elim (Option-cases (take_match n (fingerprint render ctx) (gc now st))) [
        | inl nothing ↦ rw (consume, nothing) (not_there nothing)
        | inr (rest, found) ↦
            rw (consume, found)
              (taken rest (take_match-Taken n (fingerprint render ctx) (gc now st) rest found))
      ]

  gc-IsFresh : (n : String) (now : ℕ) (st : Store) → IsFresh n st → IsFresh n (gc now st)
  unfolding gc
  gc-IsFresh n now st h = keep_if-IsFresh (λ p. ltb now p.expires_at) n st h

  gc-IsDistinct : (now : ℕ) (st : Store) → IsDistinct st → IsDistinct (gc now st)
  unfolding gc
  gc-IsDistinct now st h = keep_if-IsDistinct (λ p. ltb now p.expires_at) st h

  consumed-IsFresh :
      {n fp : String} (m : String) {now : ℕ} {st : Store} {r : Bool × Store}
      → Consumes n fp now st r
      → IsFresh m st
      → IsFresh m r.1
  consumed-IsFresh m {now} {st} (taken rest t) h = Taken-IsFresh m t (gc-IsFresh m now st h)
  consumed-IsFresh m {now} {st} (not_there e) h = gc-IsFresh m now st h

  consumed-IsDistinct :
      {n fp : String} {now : ℕ} {st : Store} {r : Bool × Store}
      → Consumes n fp now st r
      → IsDistinct st
      → IsDistinct r.1
  consumed-IsDistinct {now} {st} (taken rest t) h = Taken-IsDistinct t (gc-IsDistinct now st h)
  consumed-IsDistinct {now} {st} (not_there e) h = gc-IsDistinct now st h

  consumed_gone :
      {n fp : String} {now : ℕ} {st : Store} {r : Bool × Store}
      → Consumes n fp now st r
      → IsDistinct st
      → r.0 ≡ true
      → IsFresh n r.1
  consumed_gone {now} {st} (taken rest t) h e = Taken-gone t (gc-IsDistinct now st h)
  consumed_gone (not_there miss) h e = ground arith

  consume_fresh :
      (ctx : ActionContext) (n : String) (now : ℕ) (st : Store)
      → IsFresh n st
      → (consume render ctx n now st).0 ≡ false
  unfolding consume
  consume_fresh ctx n now st h =
      rw (consume, take_match_fresh n (fingerprint render ctx) (gc now st) (gc-IsFresh n now st h))
        refl

  -- The uses of a store that do not issue `n` again.
  pub data Uses (n : String) : Store → Store → Type 0 where
    done : (st : Store) → Uses n st st
    issues :
        (ttl : ℕ) (ctx : ActionContext) (m : String) (now : ℕ) {st end : Store}
        → m ≢ n
        → Uses n (issue render ttl ctx m now st) end
        → Uses n st end
    consumes :
        (ctx : ActionContext) (m : String) (now : ℕ) {st end : Store}
        → Uses n (consume render ctx m now st).1 end
        → Uses n st end

  issue-IsFresh :
      (n : String) (ttl : ℕ) (ctx : ActionContext) (m : String) (now : ℕ) (st : Store)
      → m ≢ n
      → IsFresh n st
      → IsFresh n (issue render ttl ctx m now st)
  unfolding issue
  issue-IsFresh n ttl ctx m now st ne h =
      All-append (λ p. p.nonce ≢ n) (gc now st) _ (gc-IsFresh n now st h) (ne, tt)

  Uses-IsFresh : {n : String} {st end : Store} → Uses n st end → IsFresh n st → IsFresh n end
  Uses-IsFresh (done st) h = h
  Uses-IsFresh {n} (issues ttl ctx m now {st} ne rest) h =
      Uses-IsFresh rest (issue-IsFresh n ttl ctx m now st ne h)
  Uses-IsFresh {n} (consumes ctx m now {st} rest) h =
      Uses-IsFresh rest (consumed-IsFresh n (consume-Consumes ctx m now st) h)

  -- In a store whose nonces differ, a nonce that confirmed an action confirms none again, whichever
  -- action is asked and whatever was issued, under another nonce, or consumed in between.
  pub consume-single_use :
      {end : Store} (ctx ctx' : ActionContext) (n : String) (now later : ℕ) (st : Store)
      → IsDistinct st
      → (consume render ctx n now st).0 ≡ true
      → Uses n (consume render ctx n now st).1 end
      → (consume render ctx' n later end).0 ≡ false
  consume-single_use {end} ctx ctx' n now later st d ok uses =
      consume_fresh ctx' n later end
        (Uses-IsFresh uses (consumed_gone (consume-Consumes ctx n now st) d ok))

  -- The stores that issuing unused nonces and consuming can reach from the empty one.
  pub data Reachable : Store → Type 0 where
    empty : Reachable []
    issued :
        (ttl : ℕ) (ctx : ActionContext) (m : String) (now : ℕ) {st : Store}
        → Reachable st
        → IsFresh m st
        → Reachable (issue render ttl ctx m now st)
    consumed :
        (ctx : ActionContext) (m : String) (now : ℕ) {st : Store}
        → Reachable st
        → Reachable (consume render ctx m now st).1

  issue-IsDistinct :
      (ttl : ℕ) (ctx : ActionContext) (m : String) (now : ℕ) (st : Store)
      → IsDistinct st
      → IsFresh m st
      → IsDistinct (issue render ttl ctx m now st)
  unfolding issue
  issue-IsDistinct ttl ctx m now st d f =
      append-IsDistinct (gc now st) _ (gc-IsDistinct now st d) (gc-IsFresh m now st f)

  -- Whatever order nonces are issued and consumed in, with nonces that are not pending when they
  -- are issued, the nonces of the pending entries differ.
  pub Reachable-IsDistinct : {st : Store} → Reachable st → IsDistinct st
  Reachable-IsDistinct empty = tt
  Reachable-IsDistinct (issued ttl ctx m now {st} r f) =
      issue-IsDistinct ttl ctx m now st (Reachable-IsDistinct r) f
  Reachable-IsDistinct (consumed ctx m now {st} r) =
      consumed-IsDistinct (consume-Consumes ctx m now st) (Reachable-IsDistinct r)

  -- A nonce that is issued for an action and is not pending already confirms an action with the
  -- same fingerprint exactly while the clock is before its expiry.
  pub issue-consume :
      (ttl : ℕ) (ctx ctx' : ActionContext) (n : String) (now later : ℕ) (st : Store)
      → IsFresh n st
      → fingerprint render ctx' ≡ fingerprint render ctx
      → (consume render ctx' n later (issue render ttl ctx n now st)).0 ≡ ltb later (now + ttl)
  unfolding consume
  issue-consume ttl ctx ctx' n now later st f same =
      let fp : String = fingerprint render ctx in
      let p : Pending = record { nonce = n; fingerprint = fp; expires_at = now + ttl } in
      let before : Store = gc later (gc now st) in
      let fresh : IsFresh n before = gc-IsFresh n later (gc now st) (gc-IsFresh n now st f) in
      let split : gc later (issue render ttl ctx n now st)
          ≡ (if ltb later (now + ttl) then before ++ p ∷ [] else before) =
        unfold issue gc in keep_if-append (λ q. ltb later q.expires_at) (gc now st) p in
      elim (Bool-cases (ltb later (now + ttl))) [
        | inl live ↦ rw (consume, same, split, live, take_match-last before p fresh) refl
        | inr dead ↦ rw (consume, same, split, dead, take_match_fresh n fp before fresh) refl
      ]

pub consume_keeps_IsFresh :
    (render : String → Args → String) (ctx : ActionContext) (n m : String) (now : ℕ) (st : Store)
    → IsFresh m st
    → IsFresh m (consume render ctx n now st).1
consume_keeps_IsFresh render ctx n m now st h =
    consumed-IsFresh render m (consume-Consumes render ctx n now st) h
