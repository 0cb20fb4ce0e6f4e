-- ===== src/Worker/Race/Samples.antt =====
-- A signal that is sent before the wait for it (internal/worker/suspend.go).
use servitor.Prelude.{◌≡◌, refl, none, [], select, select_row}
use servitor.Prelude.Int.{pos}
use servitor.Value.{str}
use servitor.Honker.Samples.{queue, claim, store}
use servitor.Honker.Suspend.{is_signal, parked_instances_for_signal}
use servitor.Worker.Samples.{harness, json, wait_job}
use servitor.Worker.Wait.{continuation_of, complete_wait, wait_tx}
use servitor.Worker.Signals.{resume_by_signal}
use servitor.Worker.Race.{wait_tx-after_signal}

none_parked : parked_instances_for_signal "go" store ≡ []
unfolding parked_instances_for_signal select
none_parked = refl

none_buffered : select_row (is_signal "go") store.buffered ≡ none
unfolding select_row
none_buffered = refl

wait_tx-after_signal_example :
    wait_tx queue harness json wait_job claim "go"
      (pos 0)
      (resume_by_signal queue harness json "go" (str "now") store).0
    ≡ complete_wait queue harness json claim (continuation_of wait_job) "signal" (str "now") store
wait_tx-after_signal_example =
    wait_tx-after_signal queue harness json wait_job claim "go" (pos 0) (str "now") store refl
      none_parked none_buffered refl
