-- ===== src/Consumer/Samples/Polls.antt =====
-- The polls of the test data, message by message.
use observability_lab.Prelude.{◌≡◌, refl, none, some, [], ◌∷◌}
use mathlib.Core.Path.{subst}
use observability_lab.Result.{ok}
use observability_lab.Payload.{Event}
use observability_lab.Consumer.Loop.{main_loop}
use observability_lab.Consumer.Progress.{HasType, main_loop-Advances}
use observability_lab.Consumer.Machine.{Runs, all_messages, shop_of}
use observability_lab.Consumer.Machine.Refines.{main_loop-Runs}
use observability_lab.Consumer.Samples.{binary, packages, start, approve, ship, reopen, polls}

typed : (a e : Event) → HasType a → some a ≡ some e → HasType e
typed a e h q = let same : a ≡ e = cc in subst HasType same h

untyped : (e : Event) → none ≡ some e → HasType e
untyped e q = cc

main_loop-Advances_example :
    ((main_loop packages polls start).0 ≡ ok tt)
    × ((main_loop packages polls start).1.committed ≡ (1, 5) ∷ (0, 10) ∷ (0, 9) ∷ [])
main_loop-Advances_example =
    main_loop-Advances packages polls start (λ n. refl)
      (
        (
          (
            λ e q. typed approve e (some "ORDER_STATUS_CHANGED", refl) q,
            ((λ e q. typed reopen e (some "ORDER_STATUS_CHANGED", refl) q), tt),
          ),
          tt,
        ),
        (
          (
            (λ e q. typed approve e (some "ORDER_STATUS_CHANGED", refl) q, tt),
            (
              (
                λ e q. typed ship e (some "ORDER_STATUS_CHANGED", refl) q,
                ((λ e q. untyped e q), tt),
              ),
              tt,
            ),
          ),
          tt,
        ),
      )

main_loop-Runs_example :
    Runs packages
      (all_messages polls)
      (shop_of start.conn.db)
      (shop_of (main_loop packages polls start).1.conn.db)
main_loop-Runs_example = main_loop-Runs packages polls start
