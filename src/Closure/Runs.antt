-- ===== src/Closure/Runs.antt =====
-- Runs of the closure's runtime: the tables that sequences of its calls lead to.
use foundry_pay.Base.{lit, []}
use foundry_pay.Python.Value.{Fields}
use foundry_pay.Closure.Sample.{
  host, now, first_freeze, second_freeze, request, commitment, receipt, observation, observer,
  empty,
}
use foundry_pay.Closure.Table.{ClosureDb}
use foundry_pay.Closure.Runtime.Calls.{
  Reached, start, then_call, registering, committing, submitting, receiving, reconciling_with,
}
use foundry_pay.Closure.Runtime.Register.{register_refund}
use foundry_pay.Closure.Runtime.Commit.{commit_execution, record_submit_intent}
use foundry_pay.Closure.Runtime.Receipt.{record_technical_receipt}
use foundry_pay.Closure.Runtime.Reconcile.{reconcile}

-- The first refund, of 60, from its registration to its completion
abbrev pub registered : ClosureDb
registered = (register_refund host (request "refund-1" "8" "60") first_freeze now [] empty).1

abbrev pub committed : ClosureDb
committed = (commit_execution host (lit "refund-1") (commitment "8") now registered).1

abbrev pub sent : ClosureDb
sent = (record_submit_intent host (lit "refund-1") now committed).1

abbrev pub received : ClosureDb
received = (record_technical_receipt host (lit "refund-1") (receipt "refund-1" "8") now sent).1

abbrev pub first_observed : Fields
first_observed = observation "refund-1" "8" "50" "110" "350" "290"

abbrev pub reconciled : ClosureDb
reconciled = (reconcile host (lit "refund-1") first_observed observer now received).1

pub registered-Reached : Reached host registered
registered-Reached =
    then_call empty (register_refund host (request "refund-1" "8" "60") first_freeze now [] empty)
      start (registering (request "refund-1" "8" "60") first_freeze now [])

pub committed-Reached : Reached host committed
committed-Reached =
    then_call registered (commit_execution host (lit "refund-1") (commitment "8") now registered)
      registered-Reached (committing (lit "refund-1") (commitment "8") now)

pub sent-Reached : Reached host sent
sent-Reached =
    then_call committed (record_submit_intent host (lit "refund-1") now committed) committed-Reached
      (submitting (lit "refund-1") now)

pub reconciled-Reached : Reached host reconciled
reconciled-Reached =
    then_call received (reconcile host (lit "refund-1") first_observed observer now received)
      (then_call sent
        (record_technical_receipt host (lit "refund-1") (receipt "refund-1" "8") now sent)
        sent-Reached (receiving (lit "refund-1") (receipt "refund-1" "8") now))
      (reconciling_with (lit "refund-1") first_observed observer now)

-- A second refund, of 40, once the first is completed
abbrev pub registered_again : ClosureDb
registered_again =
    (register_refund host (request "refund-02" "9" "40") second_freeze now [] reconciled).1

abbrev pub committed_again : ClosureDb
committed_again = (commit_execution host (lit "refund-02") (commitment "9") now registered_again).1

abbrev pub sent_again : ClosureDb
sent_again = (record_submit_intent host (lit "refund-02") now committed_again).1

abbrev pub received_again : ClosureDb
received_again =
    (record_technical_receipt host (lit "refund-02") (receipt "refund-02" "9") now sent_again).1

abbrev pub second_observed : Fields
second_observed = observation "refund-02" "9" "110" "150" "290" "250"

abbrev pub reconciled_again : ClosureDb
reconciled_again = (reconcile host (lit "refund-02") second_observed observer now received_again).1

pub sent_again-Reached : Reached host sent_again
sent_again-Reached =
    then_call committed_again (record_submit_intent host (lit "refund-02") now committed_again)
      (then_call registered_again
        (commit_execution host (lit "refund-02") (commitment "9") now registered_again)
        (then_call reconciled
          (register_refund host (request "refund-02" "9" "40") second_freeze now [] reconciled)
          reconciled-Reached (registering (request "refund-02" "9" "40") second_freeze now []))
        (committing (lit "refund-02") (commitment "9") now))
      (submitting (lit "refund-02") now)

pub both-Reached : Reached host reconciled_again
both-Reached =
    then_call received_again
      (reconcile host (lit "refund-02") second_observed observer now received_again)
      (then_call sent_again
        (record_technical_receipt host (lit "refund-02") (receipt "refund-02" "9") now sent_again)
        sent_again-Reached (receiving (lit "refund-02") (receipt "refund-02" "9") now))
      (reconciling_with (lit "refund-02") second_observed observer now)

-- Two refunds that reserve at the same time
abbrev pub both_registered : ClosureDb
both_registered =
    (register_refund host (request "refund-02" "9" "40") first_freeze now [] registered).1

pub both_registered-Reached : Reached host both_registered
both_registered-Reached =
    then_call registered
      (register_refund host (request "refund-02" "9" "40") first_freeze now [] registered)
      registered-Reached (registering (request "refund-02" "9" "40") first_freeze now [])
