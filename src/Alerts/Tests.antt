-- ===== src/Alerts/Tests.antt =====
-- A price alert whose quote fails.
use clawmes.Base.{ℕ, ◌≡◌, refl, false, none, some, [], leb, ltb}
use clawmes.Alerts.{above, active, price, Alert, undelivered, is_active}
use clawmes.Alerts.Add.{Prices}
use clawmes.Alerts.Watcher.{
  failed, Outside, check_price, check_alert, fire_alert, deliver, run_alert,
}

abbrev prices : Prices ℕ
prices = record {
  float_of = λ t. some 5;
  lower = λ t. t;
  zero_usd = 0;
  is_positive = λ f. ltb 0 f;
  at_least = λ a b. leb b a;
}

abbrev outside : Outside ℕ ℕ
outside = record {
  quote = λ t w. failed "rate limit";
  receipts = λ address block w. none;
  sorted_set = λ receipts. [];
  now_iso = λ w. "now";
  post_webhook = λ url a event w. (undelivered "no network", w);
}

abbrev alert : Alert ℕ
alert = record {
  id = "alert_1";
  sender_id = "ann";
  watch = price "CLAWNCH" above 5;
  webhook_url = none;
  status = active;
  created_at = "then";
  fires = [];
}

-- A failed quote uses the alert up.
failed_quote : is_active (run_alert prices outside alert 0).0.1.status ≡ false
unfolding run_alert check_alert check_price fire_alert deliver
failed_quote = refl
