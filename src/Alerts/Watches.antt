-- ===== src/Alerts/Watches.antt =====
-- What the watcher does with one alert.
use clawmes.Base.{
  ℕ, ◌+◌, ◌++◌, ◌≡◌, ◌≢◌, ◌⊎◌, Option, String, Bool, true, false, none, some, List, [], ◌∷◌, length,
  take,
}
use clawmes.Alerts.{
  Direction, Status, Delivery, fired, Watch, price, wallet, Event, crossed, received, quote_error,
  Alert, is_active,
}
use clawmes.Alerts.Add.{Prices}
use clawmes.Alerts.Watcher.{
  Quote, failed, unreadable, missing, quoted, Receipt, Outside, max_block, Checked, nothing, raised,
  fires_on, is_crossed,
}

module _ {ℓ} {F : Type 0} {W : Type ℓ} (prices : Prices F) (outside : Outside F W) where
  -- The price that a quote stands for: none counts as 0.
  pub data Shows : Quote F → F → Type 0 where
    shows_price : (p : F) → Shows (quoted p) p
    shows_zero : Shows missing prices.zero_usd

  -- How a check ends, with what makes it.
  pub data Checks (w : W) : Watch F → Checked F → Type 0 where
    unread_price :
        {t : String} {d : Direction} {threshold : F}
        → outside.quote t w ≡ unreadable
        → Checks w (price t d threshold) nothing
    not_crossed :
        {t : String} {d : Direction} {threshold : F} (q : Quote F) (p : F)
        → outside.quote t w ≡ q
        → Shows q p
        → is_crossed prices d p threshold ≡ false
        → Checks w (price t d threshold) nothing
    crosses :
        {t : String} {d : Direction} {threshold : F} (q : Quote F) (p : F)
        → outside.quote t w ≡ q
        → Shows q p
        → is_crossed prices d p threshold ≡ true
        → Checks w (price t d threshold) (fires_on (crossed p) (price t d threshold))
    quote_fails :
        {t : String} {d : Direction} {threshold : F} (e : String)
        → outside.quote t w ≡ failed e
        → Checks w (price t d threshold) (fires_on (quote_error e) (price t d threshold))
    poll_fails :
        {address : String} {last : ℕ}
        → outside.receipts address (last + 1) w ≡ none
        → Checks w (wallet address last) raised
    none_new :
        {address : String} {last : ℕ}
        → outside.receipts address (last + 1) w ≡ some []
        → Checks w (wallet address last) nothing
    bad_block :
        {address : String} {last : ℕ} (r : Receipt) (receipts : List Receipt)
        → outside.receipts address (last + 1) w ≡ some (r ∷ receipts)
        → max_block (r ∷ receipts) ≡ none
        → Checks w (wallet address last) raised
    receives :
        {address : String} {last : ℕ} (r : Receipt) (receipts : List Receipt) (block : ℕ)
        → outside.receipts address (last + 1) w ≡ some (r ∷ receipts)
        → max_block (r ∷ receipts) ≡ some block
        → Checks w (wallet address last) (
            fires_on
              (received (length (r ∷ receipts)) (take 5 (outside.sorted_set (r ∷ receipts))))
              (wallet address block))

  -- The status of a watch after a fire: a price alert is done.
  abbrev pub status_then : Watch F → Status → Status
  status_then (price _ _ _) status = fired
  status_then (wallet _ _) status = status

  -- The alert after a fire, with its new watch: the fire is the last of its fires, with the time, the
  -- event and what the webhook answered.
  abbrev pub fired_alert : Alert F → Event F → Watch F → W → Option Delivery → Alert F
  fired_alert a event x w delivery = record a {
    watch = x;
    status = status_then x a.status;
    fires = a.fires ++ record { at = outside.now_iso w; event = event; webhook = delivery } ∷ [];
  }

  -- The outcomes of a round for one alert.
  pub data Watched (a : Alert F) (w : W) : (Bool × Alert F) × W → Type ℓ where
    rests : is_active a.status ≡ false → Watched a w ((false, a), w)
    silent : is_active a.status ≡ true → Checks w a.watch nothing → Watched a w ((false, a), w)
    skipped : is_active a.status ≡ true → Checks w a.watch raised → Watched a w ((false, a), w)
    fires_unheard :
        (event : Event F) (x : Watch F)
        → is_active a.status ≡ true
        → Checks w a.watch (fires_on event x)
        → (a.webhook_url ≡ none) ⊎ (a.webhook_url ≡ some "")
        → Watched a w ((true, fired_alert a event x w none), w)
    fires_posting :
        (event : Event F) (x : Watch F) (url : String)
        → is_active a.status ≡ true
        → Checks w a.watch (fires_on event x)
        → a.webhook_url ≡ some url
        → url ≢ ""
        → Watched a w (
          (
            true,
            fired_alert a event x w
                (some (outside.post_webhook url (fired_alert a event x w none) event w).0),
          ),
          (outside.post_webhook url (fired_alert a event x w none) event w).1,
        )
